-- ===== src/Envelope/Tests.antt =====
-- Runs of the model of hub/envelope.mjs with a signature that is the key and the message.
use ainumbers_helm.Envelope.{
  Signing, Keys, PublicKeys, DsseEnvelope, emit_envelope, verify_envelope, pre_authentication,
  has_alg, accepts, check_ed25519, check_mldsa44, dsse_payload_type,
}
use ainumbers_helm.Envelope.Verified.{Verifies, verify_envelope-Meaning}
use ainumbers_helm.Prelude.Bytes.{utf8, decimal}
use ainumbers_helm.Prelude.{
  ℕ, Bool, true, false, Option, none, some, List, [], ◌∷◌, ◌==◌, ◌≡◌, ◌≢◌, refl, arith, find,
  if◌then◌else◌,
}

abbrev pub same_bytes : List ℕ → List ℕ → Bool
same_bytes [] [] = true
same_bytes (c ∷ cs) (d ∷ ds) = let rest = same_bytes cs ds in if c == d then rest else false
same_bytes _ _ = false

pub same_bytes_refl : (m : List ℕ) → same_bytes m m ≡ true
same_bytes_refl [] = refl
same_bytes_refl (c ∷ cs) = ground (arith, same_bytes_refl cs)

-- A toy pair of libraries: a key is one byte that the signature begins with.
abbrev pub toy : Signing
toy = record {
  PrivateKey = ℕ;
  PublicKey = ℕ;
  ed25519_sign = λ m k. k ∷ m;
  ed25519_verify = λ m k s. same_bytes (k ∷ m) s;
  mldsa44_sign = λ m k. k ∷ m;
  mldsa44_verify = λ m k s. same_bytes (k ∷ m) s;
  key_id = λ k. "k";
}

abbrev pub toy_keys : Keys toy
toy_keys = record {
  ed25519_private = 7;
  ed25519_public = 7;
  mldsa44_private = 8;
  mldsa44_public = 8;
}

pub toy-Verifies : Verifies toy toy_keys
toy-Verifies = record {
  ed25519 = λ m. same_bytes_refl (7 ∷ m);
  mldsa44 = λ m. same_bytes_refl (8 ∷ m);
}

abbrev read : List ℕ → Option (List ℕ)
read [] = none
read (c ∷ cs) = some cs

-- Without a key for the second signature the envelope is valid, but not under `strict`.
abbrev one_key : PublicKeys toy
one_key = record { ed25519 = 7; mldsa44 = none }

abbrev signed : DsseEnvelope
signed = emit_envelope toy (1 ∷ 2 ∷ []) toy_keys

signed_run : (verify_envelope toy read false signed one_key).valid ≡ true
unfolding verify_envelope emit_envelope pre_authentication has_alg accepts check_ed25519
    check_mldsa44 utf8 decimal
signed_run = refl

strict_run : (verify_envelope toy read true signed one_key).valid ≡ false
unfolding verify_envelope emit_envelope pre_authentication has_alg accepts check_ed25519
    check_mldsa44 utf8 decimal
strict_run = refl

verify_envelope-Meaning_example :
    let m = pre_authentication signed.payload_type signed.payload in
    (signed.payload_type ≡ dsse_payload_type)
    × (check_ed25519 toy m one_key (find (has_alg "EdDSA") signed.signatures) ≡ true)
    × (check_mldsa44 toy m one_key (find (has_alg "ML-DSA-44") signed.signatures) ≢ some false)
    × (false ≡ true
        → check_mldsa44 toy m one_key (find (has_alg "ML-DSA-44") signed.signatures) ≡ some true)
    × ((a : List ℕ) × (read signed.payload ≡ some a)
        × ((verify_envelope toy read false signed one_key).statement ≡ some a))
verify_envelope-Meaning_example = verify_envelope-Meaning toy read false signed one_key signed_run
