-- ===== src/Token/SingleUse.antt =====
-- The single-use credentials of hub/token.mjs, over any sequence of calls of the module.
use ainumbers_helm.Prelude.{
  ℕ, suc, ◌+◌, ◌≤◌, String, ◌≡◌, refl, Bool, true, false, Option, none, some, List, [], ◌∷◌, leb,
  str_eq, str_eq_refl, eq_iff, All, Option-cases, arith, inl, inr,
}
use ainumbers_helm.Prelude.Dict.{get, get-set, get-delete, dict_laws}
use ainumbers_helm.Token.{
  Tickets, Stores, Call, create_pairing, redeem_pairing, create_stream, redeem_stream,
  create_export, redeem_export, create_signer, redeem_signer, step, boot, is_open_at,
  pairing_ttl_ms, stream_ticket_ttl_ms, export_ticket_ttl_ms, signer_config_ticket_ttl_ms,
  is_pairing_window_open, redeem_pairing_nonce,
}

pub data Kind : Type 0 where
  pairing stream export signer : Kind

abbrev pub store_of : Kind → Stores → Tickets
store_of pairing s = s.pairing_nonces
store_of stream s = s.stream_tickets
store_of export s = s.export_tickets
store_of signer s = s.signer_config_tickets

abbrev pub ttl_ms : Kind → ℕ
ttl_ms pairing = pairing_ttl_ms
ttl_ms stream = stream_ticket_ttl_ms
ttl_ms export = export_ticket_ttl_ms
ttl_ms signer = signer_config_ticket_ttl_ms

abbrev pub create : Kind → String → ℕ → Call
create pairing = create_pairing
create stream = create_stream
create export = create_export
create signer = create_signer

abbrev pub redeem : Kind → String → ℕ → Call
redeem pairing = redeem_pairing
redeem stream = redeem_stream
redeem export = redeem_export
redeem signer = redeem_signer

-- Whether a call creates, or redeems, the text `t` of the kind.
abbrev pub creates : Kind → String → Call → Bool
creates pairing t (create_pairing u now) = str_eq u t
creates stream t (create_stream u now) = str_eq u t
creates export t (create_export u now) = str_eq u t
creates signer t (create_signer u now) = str_eq u t
creates _ t _ = false

abbrev pub redeems : Kind → String → Call → Bool
redeems pairing t (redeem_pairing u now) = str_eq u t
redeems stream t (redeem_stream u now) = str_eq u t
redeems export t (redeem_export u now) = str_eq u t
redeems signer t (redeem_signer u now) = str_eq u t
redeems _ t _ = false

abbrev pub one_if : Bool → ℕ
one_if true = 1
one_if false = 0

abbrev pub both : Bool → Bool → Bool
both true b = b
both false b = false

-- How often the text was created, and how often a redeem call of it returned true.
abbrev pub issued : Kind → String → List Call → ℕ
issued k t [] = 0
issued k t (c ∷ cs) = one_if (creates k t c) + issued k t cs

abbrev pub granted : Kind → String → List Call → Stores → ℕ
granted k t [] s = 0
granted k t (c ∷ cs) s = one_if (both (redeems k t c) (step c s).1) + granted k t cs (step c s).0

abbrev pub run : List Call → Stores → Stores
run [] s = s
run (c ∷ cs) s = run cs (step c s).0

abbrev held : Option ℕ → ℕ
held none = 0
held (some n) = 1

step_budget :
    (k : Kind) (t : String) (c : Call) (s : Stores)
    → one_if (both (redeems k t c) (step c s).1) + held (get (store_of k (step c s).0) t)
      ≤ held (get (store_of k s) t) + one_if (creates k t c)
unfolding step
step_budget pairing t (create_pairing u now) s = simp dict_laws (ground arith)
step_budget pairing t (redeem_pairing u now) s = simp dict_laws (ground (arith, eq_iff u t))
step_budget stream t (create_stream u now) s = simp dict_laws (ground arith)
step_budget stream t (redeem_stream u now) s = simp dict_laws (ground (arith, eq_iff u t))
step_budget export t (create_export u now) s = simp dict_laws (ground arith)
step_budget export t (redeem_export u now) s = simp dict_laws (ground (arith, eq_iff u t))
step_budget signer t (create_signer u now) s = simp dict_laws (ground arith)
step_budget signer t (redeem_signer u now) s = simp dict_laws (ground (arith, eq_iff u t))
step_budget _ t _ s = ground arith

granted_budget :
    (k : Kind) (t : String) (cs : List Call) (s : Stores)
    → granted k t cs s ≤ held (get (store_of k s) t) + issued k t cs
granted_budget k t [] s = omega arith
granted_budget k t (c ∷ cs) s =
    omega (arith, step_budget k t c s, granted_budget k t cs (step c s).0)

-- From a fresh daemon, whatever calls are made in whatever order and at whatever times, a text is
-- redeemed with success at most as often as it was created, for each of the four kinds.
pub single_use : (k : Kind) (t : String) (cs : List Call) → granted k t cs boot ≤ issued k t cs
unfolding boot get
single_use pairing t cs = omega (arith, granted_budget pairing t cs boot)
single_use stream t cs = omega (arith, granted_budget stream t cs boot)
single_use export t cs = omega (arith, granted_budget export t cs boot)
single_use signer t cs = omega (arith, granted_budget signer t cs boot)

-- no call of the list creates or redeems the text
abbrev pub Untouched : Kind → String → List Call → Type 0
Untouched k t = All (λ c. (creates k t c ≡ false) × (redeems k t c ≡ false))

step_untouched :
    (k : Kind) (t : String) (c : Call) (s : Stores)
    → creates k t c ≡ false
    → redeems k t c ≡ false
    → get (store_of k (step c s).0) t ≡ get (store_of k s) t
unfolding step
step_untouched pairing t (create_pairing u now) s h i = rw (get-set, h)
step_untouched pairing t (redeem_pairing u now) s h i = rw (get-delete, i)
step_untouched stream t (create_stream u now) s h i = rw (get-set, h)
step_untouched stream t (redeem_stream u now) s h i = rw (get-delete, i)
step_untouched export t (create_export u now) s h i = rw (get-set, h)
step_untouched export t (redeem_export u now) s h i = rw (get-delete, i)
step_untouched signer t (create_signer u now) s h i = rw (get-set, h)
step_untouched signer t (redeem_signer u now) s h i = rw (get-delete, i)
step_untouched _ t _ s h i = ground arith

run-Untouched :
    (k : Kind) (t : String) (cs : List Call) (s : Stores)
    → Untouched k t cs
    → get (store_of k (run cs s)) t ≡ get (store_of k s) t
run-Untouched k t [] s h = refl
run-Untouched k t (c ∷ cs) s h =
    rw (run-Untouched k t cs (step c s).0 h.1) (step_untouched k t c s h.0.0 h.0.1)

get-created :
    (k : Kind) (t : String) (now : ℕ) (s : Stores)
    → get (store_of k (step (create k t now) s).0) t ≡ some (now + ttl_ms k)
unfolding step
get-created pairing t now s = rw (get-set, str_eq_refl)
get-created stream t now s = rw (get-set, str_eq_refl)
get-created export t now s = rw (get-set, str_eq_refl)
get-created signer t now s = rw (get-set, str_eq_refl)

redeem_found :
    (k : Kind) (t : String) (now e : ℕ) (s : Stores)
    → get (store_of k s) t ≡ some (suc e)
    → (step (redeem k t now) s).1 ≡ leb now (suc e)
unfolding step
redeem_found pairing t now e s h = ground arith
redeem_found stream t now e s h = ground arith
redeem_found export t now e s h = ground arith
redeem_found signer t now e s h = ground arith

positive : (k : Kind) (n : ℕ) → (m : ℕ) × (n + ttl_ms k ≡ suc m)
positive pairing n = (n + 299999, omega arith)
positive stream n = (n + 14999, omega arith)
positive export n = (n + 299999, omega arith)
positive signer n = (n + 299999, omega arith)

-- A credential created at `start` and touched by no other call since is redeemed at `now` with
-- success exactly if `now` is at most its kind's lifetime after `start`.
pub redeem_in_time :
    (k : Kind) (t : String) (start now : ℕ) (cs : List Call) (s : Stores)
    → Untouched k t cs
    → (step (redeem k t now) (run cs (step (create k t start) s).0)).1 ≡ leb now (start + ttl_ms k)
redeem_in_time k t start now cs s h =
    let (m, e) = positive k start in
    rw e (
      redeem_found k t now m (run cs (step (create k t start) s).0) (
        rw (run-Untouched k t cs (step (create k t start) s).0 h)
          (rw (get-created k t start s, e))))

is_open_of_get :
    (now e : ℕ) (d : Tickets) (t : String)
    → get d t ≡ some e
    → leb now e ≡ true
    → is_open_at now d ≡ true
unfolding get is_open_at
is_open_of_get now e [] t h l = cc
is_open_of_get now e ((u, x) ∷ d) t h l = ground (arith, is_open_of_get now e d t)

-- While some pairing link would still be redeemed, the pairing window is open.
pub window_open_while_redeemable :
    (s : Stores) (nonce : String) (now : ℕ)
    → (redeem_pairing_nonce nonce now s).1 ≡ true
    → is_pairing_window_open now s ≡ true
unfolding redeem_pairing_nonce is_pairing_window_open
window_open_while_redeemable s nonce now h = elim (Option-cases (get s.pairing_nonces nonce)) [
  | inl e ↦ ground arith
  | inr (x, e) ↦ is_open_of_get now x s.pairing_nonces nonce e (ground arith)
]
