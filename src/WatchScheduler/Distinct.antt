-- ===== src/WatchScheduler/Distinct.antt =====
-- hub/watch-scheduler.mjs: no two watches of the file have one identifier.
use ainumbers_helm.HaGate.Check.{member_text, member_json}
use ainumbers_helm.Json.{Json, null, bool, num, str, arr, obj}
use ainumbers_helm.Run.Manifest.{Manifest}
use ainumbers_helm.Run.Tables.{sha256_ref}
use ainumbers_helm.WatchScheduler.Cadence.{WatchError, validate_watch_input}
use ainumbers_helm.Prelude.{
  ℕ, String, false, Option, none, some, List, [], ◌∷◌, ◌++◌, str_eq, ◌≡◌, ◌⊎◌, inl, inr, refl, ap,
  Bool-cases, Option-cases, str_eq→eq, str_eq_refl,
}
use ainumbers_helm.WatchScheduler.File.{
  Watch, Packs, has_watch, add_watch, check_inputs, with_inputs, of_mode, of_pack, watch_of,
  create_watch, get_watch, remove_first, revoke_watch,
}

pub data Call : Type 0 where
  create : String → ℕ → Json → Call
  revoke : String → Option String → ℕ → Call

unfoldable pub call : (List ℕ → String) → Packs → Call → List Watch → List Watch
call sha256_hex p (create fresh_id now input) ws =
    (create_watch sha256_hex p fresh_id now input ws).0
call sha256_hex p (revoke id by now) ws = (revoke_watch id by now ws).0

unfoldable pub calls : (List ℕ → String) → Packs → List Call → List Watch → List Watch
unfolding call
calls sha256_hex p [] ws = ws
calls sha256_hex p (c ∷ cs) ws = calls sha256_hex p cs (call sha256_hex p c ws)

-- Each watch has another identifier than those after it.
abbrev pub AreDistinct : List Watch → Type 0
AreDistinct [] = Unit {0}
AreDistinct (w ∷ ws) = (has_watch w.watch_id ws ≡ false) × AreDistinct ws

List-cases :
    (xs : List WatchError) → (xs ≡ []) ⊎ ((y : WatchError) × (ys : List WatchError) × (xs ≡ y ∷ ys))
List-cases [] = inl refl
List-cases (y ∷ ys) = inr (y, ys, refl)

str_eq-sym : (s t : String) → str_eq s t ≡ false → str_eq t s ≡ false
str_eq-sym s t h = elim (Bool-cases (str_eq t s)) [
  | inr e ↦ e
  | inl e ↦ cc (h, str_eq_refl s, ap (λ x. str_eq s x) (str_eq→eq t s e))
]

has_watch-append :
    (id : String) (ws : List Watch) (w : Watch)
    → has_watch id ws ≡ false
    → str_eq w.watch_id id ≡ false
    → has_watch id (ws ++ w ∷ []) ≡ false
unfolding has_watch
has_watch-append id [] w h e = rw e refl
has_watch-append id (x ∷ ws) w h e = elim (Bool-cases (str_eq x.watch_id id)) [
  | inl f ↦ cc (rw f at h)
  | inr f ↦ rw f (has_watch-append id ws w (rw f at h) e)
]

append-AreDistinct :
    (ws : List Watch) (w : Watch)
    → has_watch w.watch_id ws ≡ false
    → AreDistinct ws
    → AreDistinct (ws ++ w ∷ [])
unfolding has_watch
append-AreDistinct [] w h d = (refl, _)
append-AreDistinct (x ∷ ws) w h d = elim (Bool-cases (str_eq x.watch_id w.watch_id)) [
  | inl f ↦ cc (rw f at h)
  | inr f ↦ (
    has_watch-append x.watch_id ws w d.0 (str_eq-sym x.watch_id w.watch_id f),
    append-AreDistinct ws w (rw f at h) d.1,
  )
]

add_watch-AreDistinct :
    (w : Watch) (ws : List Watch) → AreDistinct ws → AreDistinct (add_watch w ws).0
unfolding add_watch
add_watch-AreDistinct w ws d = elim (Bool-cases (has_watch w.watch_id ws)) [
  | inl h ↦ rw (add_watch, h) d
  | inr h ↦ rw (add_watch, h) (append-AreDistinct ws w h d)
]

remove_first-has :
    (id k : String) (ws : List Watch)
    → has_watch k ws ≡ false
    → has_watch k (remove_first id ws) ≡ false
unfolding has_watch remove_first
remove_first-has id k [] h = h
remove_first-has id k (w ∷ ws) h = elim (Bool-cases (str_eq w.watch_id k)) [
  | inl f ↦ cc (rw f at h)
  | inr f ↦ elim (Bool-cases (str_eq w.watch_id id)) [
    | inl g ↦ rw g (rw f at h)
    | inr g ↦ rw (g, f) (remove_first-has id k ws (rw f at h))
  ]
]

remove_first-AreDistinct :
    (id : String) (ws : List Watch) → AreDistinct ws → AreDistinct (remove_first id ws)
unfolding remove_first
remove_first-AreDistinct id [] d = d
remove_first-AreDistinct id (w ∷ ws) d = elim (Bool-cases (str_eq w.watch_id id)) [
  | inl e ↦ rw e d.1
  | inr e ↦ rw e (remove_first-has id w.watch_id ws d.0, remove_first-AreDistinct id ws d.1)
]

revoke_watch-AreDistinct :
    (id : String) (by : Option String) (now : ℕ) (ws : List Watch)
    → AreDistinct ws
    → AreDistinct (revoke_watch id by now ws).0
unfolding revoke_watch
revoke_watch-AreDistinct id by now ws d = elim (Option-cases (get_watch id ws)) [
  | inl e ↦ rw (revoke_watch, e) d
  | inr (w, e) ↦ rw (revoke_watch, e) (remove_first-AreDistinct id ws d)
]

module _ (sha256_hex : List ℕ → String) (p : Packs) where
  with_inputs-AreDistinct :
      (fresh_id : String) (now : ℕ) (input : Json) (m : Manifest) (o : Option Json)
      (ws : List Watch)
      → AreDistinct ws
      → AreDistinct (with_inputs sha256_hex p fresh_id now input m o ws).0
  unfolding with_inputs
  with_inputs-AreDistinct fresh_id now input m none ws d = d
  with_inputs-AreDistinct fresh_id now input m (some null) ws d = d
  with_inputs-AreDistinct fresh_id now input m (some (bool b)) ws d = d
  with_inputs-AreDistinct fresh_id now input m (some (num n)) ws d = d
  with_inputs-AreDistinct fresh_id now input m (some (str s)) ws d = d
  with_inputs-AreDistinct fresh_id now input m (some (arr a)) ws d = d
  with_inputs-AreDistinct fresh_id now input m (some (obj fs)) ws d =
      elim (Option-cases (check_inputs sha256_hex p m fs)) [
        | inl e ↦
            rw (with_inputs, e) (add_watch-AreDistinct (watch_of fresh_id now input (some fs)) ws d)
        | inr (why, e) ↦ rw (with_inputs, e) d
      ]

  of_mode-AreDistinct :
      (fresh_id : String) (now : ℕ) (input : Json) (m : Manifest) (source : Option Json)
      (mode : Option String) (ws : List Watch)
      → AreDistinct ws
      → AreDistinct (of_mode sha256_hex p fresh_id now input m source mode ws).0
  unfolding of_mode
  of_mode-AreDistinct fresh_id now input m source none ws d =
      add_watch-AreDistinct (watch_of fresh_id now input none) ws d
  of_mode-AreDistinct fresh_id now input m source (some mode) ws d =
      elim (Bool-cases (str_eq mode "operator_supplied")) [
        | inl e ↦
            rw (of_mode, e)
              (with_inputs-AreDistinct fresh_id now input m (member_json source "inputs") ws d)
        | inr e ↦ rw (of_mode, e) (add_watch-AreDistinct (watch_of fresh_id now input none) ws d)
      ]

  of_pack-AreDistinct :
      (fresh_id : String) (now : ℕ) (input : Json) (digest : String) (o : Option Manifest)
      (ws : List Watch)
      → AreDistinct ws
      → AreDistinct (of_pack sha256_hex p fresh_id now input digest o ws).0
  unfolding of_pack
  of_pack-AreDistinct fresh_id now input digest none ws d = d
  of_pack-AreDistinct fresh_id now input digest (some m) ws d =
      let source : Option Json = member_json (some input) "inputs_source" in
      elim (Bool-cases (str_eq (sha256_ref sha256_hex m.json) digest)) [
        | inl e ↦
            rw (of_pack, e)
              (of_mode-AreDistinct fresh_id now input m source (member_text source "mode") ws d)
        | inr e ↦ rw (of_pack, e) d
      ]

  create_watch-AreDistinct :
      (fresh_id : String) (now : ℕ) (input : Json) (ws : List Watch)
      → AreDistinct ws
      → AreDistinct (create_watch sha256_hex p fresh_id now input ws).0
  unfolding create_watch
  create_watch-AreDistinct fresh_id now input ws d =
      elim (List-cases (validate_watch_input input)) [
        | inl e ↦ rw (create_watch, e) (of_pack-AreDistinct fresh_id now input _ _ ws d)
        | inr (x, xs, e) ↦ rw (create_watch, e) d
      ]

  call-AreDistinct :
      (c : Call) (ws : List Watch) → AreDistinct ws → AreDistinct (call sha256_hex p c ws)
  unfolding call
  call-AreDistinct (create fresh_id now input) ws d =
      create_watch-AreDistinct fresh_id now input ws d
  call-AreDistinct (revoke id by now) ws d = revoke_watch-AreDistinct id by now ws d

  pub calls-AreDistinct :
      (cs : List Call) (ws : List Watch) → AreDistinct ws → AreDistinct (calls sha256_hex p cs ws)
  unfolding calls
  calls-AreDistinct [] ws d = d
  calls-AreDistinct (c ∷ cs) ws d =
      calls-AreDistinct cs (call sha256_hex p c ws) (call-AreDistinct c ws d)
