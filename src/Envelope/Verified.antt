-- ===== src/Envelope/Verified.antt =====
-- What a valid verdict of verifyEnvelope in hub/envelope.mjs means, and that it is given to what
-- emitEnvelope signs.
use ainumbers_helm.Prelude.{
  ℕ, Bool, true, false, Option, none, some, List, str_eq, str_eq→eq, find, ◌≡◌, ◌≢◌, refl,
  Bool-cases, Option-cases, inl, inr,
}
use ainumbers_helm.Envelope.{
  dsse_payload_type, DsseEnvelope, Signing, pre_authentication, has_alg, accepts, check_ed25519,
  check_mldsa44, with_statement, Keys, PublicKeys, emit_envelope, verify_envelope,
}

accepts-Meaning :
    (strict ed : Bool) (ml : Option Bool)
    → accepts strict ed ml ≡ true
    → (ed ≡ true) × (ml ≢ some false) × (strict ≡ true → ml ≡ some true)
unfolding accepts
accepts-Meaning true true none h = cc
accepts-Meaning true true (some true) h = (refl, cc, λ s. refl)
accepts-Meaning true true (some false) h = cc
accepts-Meaning true false ml h = cc
accepts-Meaning false true none h = (refl, cc, cc)
accepts-Meaning false true (some true) h = (refl, cc, cc)
accepts-Meaning false true (some false) h = cc
accepts-Meaning false false ml h = cc

module _ (g : Signing) where
  abbrev pub public_keys_of : Keys g → PublicKeys g
  public_keys_of keys = record { ed25519 = keys.ed25519_public; mldsa44 = some keys.mldsa44_public }

  -- The libraries verify what they sign with the other half of the pair.
  pub record Verifies (keys : Keys g) : Type 0 where
    pub ed25519 :
        (m : List ℕ)
        → g.ed25519_verify m keys.ed25519_public (g.ed25519_sign m keys.ed25519_private) ≡ true
    pub mldsa44 :
        (m : List ℕ)
        → g.mldsa44_verify m keys.mldsa44_public (g.mldsa44_sign m keys.mldsa44_private) ≡ true

  module _ {ℓ} {A : Type ℓ} (read : List ℕ → Option A) where
    -- What emitEnvelope signs with two pairs that verify, of a payload that JSON.parse reads as a
    -- statement, verifyEnvelope finds valid with both signatures, strict or not, and it gives that
    -- statement.
    pub verify_envelope-emit :
        (keys : Keys g) (payload : List ℕ) (a : A) (strict : Bool)
        → Verifies keys
        → read payload ≡ some a
        → verify_envelope g read strict (emit_envelope g payload keys) (public_keys_of keys)
          ≡ record { valid = true; ed25519 = true; mldsa44 = some true; statement = some a }
    unfolding verify_envelope emit_envelope accepts check_ed25519 has_alg check_mldsa44
    verify_envelope-emit keys payload a true v h =
        let m : List ℕ = pre_authentication dsse_payload_type payload in
        rw (v.ed25519 m, v.mldsa44 m, h) refl
    verify_envelope-emit keys payload a false v h =
        let m : List ℕ = pre_authentication dsse_payload_type payload in
        rw (v.ed25519 m, v.mldsa44 m, h) refl

    with_statement-Meaning :
        (valid ed : Bool) (ml : Option Bool) (payload : List ℕ)
        → (with_statement g read valid ed ml payload).valid ≡ true
        → (valid ≡ true)
          × ((a : A) × (read payload ≡ some a)
              × ((with_statement g read valid ed ml payload).statement ≡ some a))
    unfolding with_statement
    with_statement-Meaning false ed ml payload h = cc
    with_statement-Meaning true ed ml payload h = elim (Option-cases (read payload)) [
      | inl e ↦ cc (rw (with_statement, e) at h)
      | inr (a, e) ↦ (refl, (a, e, e))
    ]

    -- An envelope that verifyEnvelope finds valid has the DSSE payload type, its first EdDSA
    -- signature verifies on the encoding of its type and payload, its first ML-DSA-44 signature is
    -- not a wrong one, and verifies if `strict` is set; the statement given is its payload as read.
    pub verify_envelope-Meaning :
        (strict : Bool) (e : DsseEnvelope) (keys : PublicKeys g)
        → (verify_envelope g read strict e keys).valid ≡ true
        → let m = pre_authentication e.payload_type e.payload in
          (e.payload_type ≡ dsse_payload_type)
          × (check_ed25519 g m keys (find (has_alg "EdDSA") e.signatures) ≡ true)
          × (check_mldsa44 g m keys (find (has_alg "ML-DSA-44") e.signatures) ≢ some false)
          × (strict ≡ true
              → check_mldsa44 g m keys (find (has_alg "ML-DSA-44") e.signatures) ≡ some true)
          × ((a : A) × (read e.payload ≡ some a)
              × ((verify_envelope g read strict e keys).statement ≡ some a))
    unfolding verify_envelope
    verify_envelope-Meaning strict e keys h =
        let m : List ℕ = pre_authentication e.payload_type e.payload in
        let ed : Bool = check_ed25519 g m keys (find (has_alg "EdDSA") e.signatures) in
        let ml : Option Bool = check_mldsa44 g m keys (find (has_alg "ML-DSA-44") e.signatures) in
        elim (Bool-cases (str_eq e.payload_type dsse_payload_type)) [
          | inr c ↦ cc (rw (verify_envelope, c) at h)
          | inl c ↦
              let settled =
                with_statement-Meaning (accepts strict ed ml) ed ml e.payload
                  (rw (verify_envelope, c) at h) in
              let met = accepts-Meaning strict ed ml settled.0 in
              (
                str_eq→eq e.payload_type dsse_payload_type c,
                met.0,
                met.1,
                met.2,
                (settled.1.0, settled.1.1, rw (verify_envelope, c) settled.1.2),
              )
        ]
