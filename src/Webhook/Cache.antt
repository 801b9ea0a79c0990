-- ===== src/Webhook/Cache.antt =====
-- The idempotency cache of hub/webhook-guard.mjs.
use ainumbers_helm.Prelude.{
  ℕ, ◌+◌, String, ◌≡◌, refl, Option, none, some, ltb, str_eq, if◌then◌else◌, Bool-cases,
  Option-cases, inl, inr,
}
use ainumbers_helm.Prelude.Dict.{Dict, get, get-set}
use ainumbers_helm.Webhook.{Cached, Response, get_idempotent_response, store_idempotent_response}

-- What a lookup answers, read off the map.
answer : ℕ → Option Cached → Option Response
answer now none = none
answer now (some entry) = if ltb entry.expires_at now then none else some entry.response

lookup-answer :
    (key : String) (now : ℕ) (cache : Dict Cached)
    → (get_idempotent_response key now cache).1 ≡ answer now (get cache key)
unfolding get_idempotent_response answer
lookup-answer key now cache = elim (Option-cases (get cache key)) [
  | inl absent ↦ rw (get_idempotent_response, absent) refl
  | inr (entry, found) ↦ elim (Bool-cases (ltb entry.expires_at now)) [
    | inl late ↦ rw (get_idempotent_response, found, late) refl
    | inr soon ↦ rw (get_idempotent_response, found, soon) refl
  ]
]

-- After a response is stored under a key, a lookup of that key answers with it exactly until its
-- lifetime has passed, and a lookup of any other key answers as it did before.
pub stored_response_answers :
    (key other : String) (response : Response) (ttl stored now : ℕ) (cache : Dict Cached)
    → (get_idempotent_response other now
        (store_idempotent_response key response ttl stored cache)).1
      ≡ (if str_eq key other
          then (if ltb (stored + ttl) now then none else some response)
          else (get_idempotent_response other now cache).1)
unfolding store_idempotent_response answer
stored_response_answers key other response ttl stored now cache =
    rw (lookup-answer, lookup-answer, get-set)
      (elim (Bool-cases (str_eq key other)) [
        | inl same ↦ rw same refl
        | inr differs ↦ rw differs refl
      ])
