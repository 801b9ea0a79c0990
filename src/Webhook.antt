-- ===== src/Webhook.antt =====
-- hub/webhook-guard.mjs: freshness, single-use nonces and the idempotency cache of the inbound
-- webhook, and the order in which hub/server.mjs applies them.
pub mod Cache
pub mod Replay
pub mod Tests
use ainumbers_helm.Json.{Json, null, bool, num, str, arr, obj, is_truthy}
use ainumbers_helm.Matter.Texts.{of_codes}
use ainumbers_helm.Prelude.Bytes.{decimal}
use ainumbers_helm.Prelude.{
  ℕ, ◌+◌, ◌-◌, ◌*◌, ◌<>◌, ◌&&◌, String, Bool, true, false, Option, none, some, List, [], ◌∷◌, ltb,
  leb, str_eq, if◌then◌else◌,
}
use ainumbers_helm.Prelude.Dict.{Dict, get, set, delete}

abbrev pub nonce_tolerance_ms : ℕ
nonce_tolerance_ms = 5 * 60 * 1000

abbrev pub idempotency_ttl_ms : ℕ
idempotency_ttl_ms = 24 * 60 * 60 * 1000

-- Math.abs(a - b)
abbrev pub distance : ℕ → ℕ → ℕ
distance a b = if leb b a then a - b else b - a

-- `none` is a timestamp that Date.parse does not read.
unfoldable pub is_timestamp_fresh : Option ℕ → ℕ → ℕ → Bool
is_timestamp_fresh none tolerance now = false
is_timestamp_fresh (some t) tolerance now = leb (distance now t) tolerance

-- The sweep that precedes each check.
unfoldable pub sweep : ℕ → Dict ℕ → Dict ℕ
sweep now [] = []
sweep now ((k, expires_at) ∷ seen) =
    let rest = sweep now seen in if ltb expires_at now then rest else (k, expires_at) ∷ rest

-- The key that a nonce is to a Map: values of a primitive type are one key where they are equal, of
-- different types never; an object or an array that JSON.parse made equals no other.
unfoldable pub map_key : Json → Option String
map_key null = some "null"
map_key (bool true) = some "true"
map_key (bool false) = some "false"
map_key (num n) = some ("number:" <> of_codes (decimal n))
map_key (str s) = some ("text:" <> s)
map_key (arr xs) = none
map_key (obj fs) = none

-- The entry of a key that equals no other is not kept: nothing reads it.
unfoldable pub consume_key : Option String → ℕ → ℕ → Dict ℕ → Dict ℕ × Bool
consume_key none ttl now swept = (swept, true)
consume_key (some k) ttl now swept = elim (get swept k) [
  | some e ↦ (swept, false)
  | none ↦ (set swept k (now + ttl), true)
]

unfoldable pub check_and_consume_nonce : Json → ℕ → ℕ → Dict ℕ → Dict ℕ × Bool
unfolding sweep map_key consume_key
check_and_consume_nonce nonce ttl now seen = consume_key (map_key nonce) ttl now (sweep now seen)

pub record Response : Type 0 where
  pub status : ℕ
  pub body : String

pub record Cached : Type 0 where
  pub expires_at : ℕ
  pub response : Response

unfoldable pub get_idempotent_response : String → ℕ → Dict Cached → Dict Cached × Option Response
get_idempotent_response key now cache = elim (get cache key) [
  | none ↦ (cache, none)
  | some entry ↦
      if ltb entry.expires_at now then (delete cache key, none) else (cache, some entry.response)
]

unfoldable pub store_idempotent_response : String → Response → ℕ → ℕ → Dict Cached → Dict Cached
store_idempotent_response key response ttl now cache =
    set cache key (record { expires_at = now + ttl; response = response })

-- The replay stage of `handleInboundWebhook`: a missing nonce and a stale delivery consume nothing. The
-- two checks read the clock for themselves, at `checked` and at `consumed`.
unfoldable pub admit : Option ℕ → Json → ℕ → ℕ → Dict ℕ → Dict ℕ × Bool
unfolding is_timestamp_fresh check_and_consume_nonce
admit timestamp nonce checked consumed seen =
    if is_truthy nonce && is_timestamp_fresh timestamp nonce_tolerance_ms checked
    then check_and_consume_nonce nonce nonce_tolerance_ms consumed seen
    else (seen, false)
