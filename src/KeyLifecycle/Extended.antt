-- ===== src/KeyLifecycle/Extended.antt =====
-- The walk of `verifyKeyLineage` (hub/key-lifecycle.mjs) over a history with one more rotation.
use ainumbers_helm.Prelude.{
  ℕ, suc, zero, String, ◌≡◌, refl, sym, ◌∙◌, ap, subst, true, false, Option, none, some, List, [],
  ◌∷◌, ◌++◌, length, length-append, str_eq, str_eq→eq, keep-append, Bool-cases, Option-cases, arith,
  inl, inr,
}
use ainumbers_helm.Prelude.Dict.{Dict, get, set}
use ainumbers_helm.KeyLifecycle.{
  Crypto, Rotation, Head, Ending, continuous, opt_str_eq, candidates, values, dedupe, next_head,
  check_rotation, walk,
}
use ainumbers_helm.KeyLifecycle.Audit.{List-cases}

candidates-append :
    (rs : List Rotation) (x : Rotation) (d : String)
    → candidates (rs ++ x ∷ []) d ≡ candidates rs d ++ candidates (x ∷ []) d
unfolding candidates
candidates-append rs x d = keep-append _ rs (x ∷ [])

candidates-one :
    (x : Rotation) (d : String)
    → opt_str_eq x.event.prev_event_digest d ≡ true
    → candidates (x ∷ []) d ≡ x ∷ []
unfolding candidates
candidates-one x d h = rw h refl

candidates-none :
    (x : Rotation) (d : String)
    → opt_str_eq x.event.prev_event_digest d ≡ false
    → candidates (x ∷ []) d ≡ []
unfolding candidates
candidates-none x d h = rw h refl

opt_str_eq-same :
    (o : Option String) (a b : String) → opt_str_eq o a ≡ true → opt_str_eq o b ≡ true → a ≡ b
opt_str_eq-same none a b h k = cc
opt_str_eq-same (some t) a b h k = sym (str_eq→eq t a h) ∙ str_eq→eq t b k

pub set-absent :
    (d : Dict Rotation) (k : String) (r : Rotation)
    → get d k ≡ none
    → values (set d k r) ≡ values d ++ r ∷ []
unfolding set get
set-absent [] k r h = refl
set-absent ((j, s) ∷ d) k r h = elim (Bool-cases (str_eq j k)) [
  | inl same ↦ cc (rw same at h)
  | inr other ↦ rw other (ap (λ xs. s ∷ xs) (set-absent d k r (rw other at h)))
]

pub length-snoc : (xs : List Rotation) (x : Rotation) → length (xs ++ x ∷ []) ≡ suc (length xs)
length-snoc xs x = omega (arith, length-append xs (x ∷ []))

pub dedupe-append :
    (d : Dict Rotation) (rs : List Rotation) (r : Rotation)
    → dedupe d (rs ++ r ∷ []) ≡ set (dedupe d rs) r.digest r
unfolding dedupe
dedupe-append d [] r = refl
dedupe-append d (x ∷ xs) r = dedupe-append (set d x.digest x) xs r

module _ (c : Crypto) where
  never_continuous :
      (h : Head) (r : Rotation) (w : Ending) (last : Head)
      → check_rotation c h r ≡ some w
      → some w ≡ some (continuous last)
      → ⊥
  unfolding check_rotation
  never_continuous h r (continuous k) last bad same = ground arith
  never_continuous h r w last bad same = cc

  walk-leaf :
      (fuel : ℕ) (rs : List Rotation) (h last : Head)
      → walk c fuel rs h ≡ some (continuous last)
      → candidates rs last.digest ≡ []
  unfolding walk
  walk-leaf zero rs h last k = cc
  walk-leaf (suc fuel) rs h last k = elim (List-cases c (candidates rs h.digest)) [
    | inl none_left ↦
        let same : h ≡ last = cc (rw (walk, none_left) at k) in
        subst (λ l. candidates rs l.digest ≡ []) same none_left
    | inr (inr (r, s, more, forked)) ↦ cc (rw (walk, forked) at k)
    | inr (inl (r, one)) ↦ elim (Option-cases (check_rotation c h r)) [
      | inr (w, bad) ↦ absurd (never_continuous h r w last bad (rw (walk, one, bad) at k))
      | inl good ↦ walk-leaf fuel rs (next_head c h r) last (rw (walk, one, good) at k)
    ]
  ]

  other_head :
      (fuel : ℕ) (rs : List Rotation) (h last : Head) (x r : Rotation)
      → walk c (suc fuel) rs h ≡ some (continuous last)
      → opt_str_eq x.event.prev_event_digest last.digest ≡ true
      → candidates rs h.digest ≡ r ∷ []
      → opt_str_eq x.event.prev_event_digest h.digest ≡ false
  other_head fuel rs h last x r k links one =
      elim (Bool-cases (opt_str_eq x.event.prev_event_digest h.digest)) [
        | inr other ↦ other
        | inl same ↦
            let e = opt_str_eq-same x.event.prev_event_digest h.digest last.digest same links in
            let leaf = walk-leaf (suc fuel) rs h last k in
            let none_left = subst (λ d. candidates rs d ≡ []) (sym e) leaf in cc
      ]

  -- A walk that ends takes one more rotation that links to its end.
  pub walk-extended :
      (fuel : ℕ) (rs : List Rotation) (h last : Head) (x : Rotation)
      → walk c fuel rs h ≡ some (continuous last)
      → opt_str_eq x.event.prev_event_digest last.digest ≡ true
      → check_rotation c last x ≡ none
      → candidates (rs ++ x ∷ []) x.digest ≡ []
      → walk c (suc fuel) (rs ++ x ∷ []) h ≡ some (continuous (next_head c last x))
  unfolding walk
  walk-extended zero rs h last x k links good fresh = cc
  walk-extended (suc fuel) rs h last x k links good fresh =
      elim (List-cases c (candidates rs h.digest)) [
        | inl none_left ↦
            let same : h ≡ last = cc (rw (walk, none_left) at k) in
            let linked =
              subst (λ l. opt_str_eq x.event.prev_event_digest l.digest ≡ true) (sym same) links in
            let found : candidates (rs ++ x ∷ []) h.digest ≡ x ∷ [] =
              candidates-append rs x h.digest ∙ rw none_left (candidates-one x h.digest linked) in
            rw (walk, found)
              (rw (walk, subst (λ l. check_rotation c l x ≡ none) (sym same) good, fresh)
                (ap (λ l. some (continuous (next_head c l x))) same))
        | inr (inr (r, s, more, forked)) ↦ cc (rw (walk, forked) at k)
        | inr (inl (r, one)) ↦ elim (Option-cases (check_rotation c h r)) [
          | inr (w, bad) ↦ absurd (never_continuous h r w last bad (rw (walk, one, bad) at k))
          | inl ok ↦
              let apart : opt_str_eq x.event.prev_event_digest h.digest ≡ false =
                other_head fuel rs h last x r k links one in
              let found : candidates (rs ++ x ∷ []) h.digest ≡ r ∷ [] =
                candidates-append rs x h.digest ∙ rw (one, candidates-none x h.digest apart) refl in
              rw (walk, found, ok)
                (walk-extended fuel rs (next_head c h r) last x (rw (walk, one, ok) at k) links good
                  fresh)
        ]
      ]
