-- ===== src/Envelope.antt =====
-- hub/envelope.mjs: DSSE envelopes signed with Ed25519 and ML-DSA-44. The signing libraries are
-- the parameters `Signing`. The members `payload` and `sig` hold the bytes that their base64 text
-- stands for. A statement is of any type; `write` is its canonical text in UTF-8 and `read` is
-- JSON.parse, which throws where it is none.
pub mod Verified
pub mod Tests
use ainumbers_helm.Prelude.{
  ℕ, String, ◌<>◌, Bool, true, false, not, ◌&&◌, Option, none, some, List, [], ◌∷◌, ◌++◌, length,
  find, str_eq, if◌then◌else◌,
}
use ainumbers_helm.Prelude.Bytes.{utf8, decimal}

abbrev pub in_toto_statement_type : String
in_toto_statement_type = "https://in-toto.io/Statement/v1"

abbrev pub dsse_payload_type : String
dsse_payload_type = "application/vnd.in-toto+json"

unfoldable pub helm_predicate_type : String → String
helm_predicate_type kind = "https://ainumbers.co/helm/attestation/v1#" <> kind

pub record DsseSignature : Type 0 where
  pub keyid : String
  pub alg : String
  pub sig : List ℕ

pub record DsseEnvelope : Type 0 where
  pub payload_type : String
  pub payload : List ℕ
  pub signatures : List DsseSignature

-- The two key pairs by their names, and the libraries' functions on them.
pub record Signing : Type 1 where
  pub PrivateKey : Type 0
  pub PublicKey : Type 0
  pub ed25519_sign : List ℕ → PrivateKey → List ℕ
  pub ed25519_verify : List ℕ → PublicKey → List ℕ → Bool
  pub mldsa44_sign : List ℕ → PrivateKey → List ℕ
  pub mldsa44_verify : List ℕ → PublicKey → List ℕ → Bool
  pub key_id : PublicKey → String

pub record Verification {ℓ} (A : Type ℓ) : Type ℓ where
  pub valid : Bool
  pub ed25519 : Bool
  pub mldsa44 : Option Bool
  pub statement : Option A

space : List ℕ
space = 32 ∷ []

-- DSSE pre-authentication encoding
unfoldable pub pre_authentication : String → List ℕ → List ℕ
unfolding space
pre_authentication payload_type payload =
    utf8 "DSSEv1"
    ++ space
    ++ decimal (length (utf8 payload_type))
    ++ space
    ++ utf8 payload_type
    ++ space
    ++ decimal (length payload)
    ++ space
    ++ payload

unfoldable pub has_alg : String → DsseSignature → Bool
has_alg alg s = str_eq s.alg alg

is_true : Option Bool → Bool
is_true (some true) = true
is_true _ = false

is_false : Option Bool → Bool
is_false (some false) = true
is_false _ = false

-- Ed25519 MUST verify; ML-DSA-44 must not be wrong, and under `strict` must verify.
unfoldable pub accepts : Bool → Bool → Option Bool → Bool
unfolding is_true is_false
accepts strict ed25519 mldsa44 =
    if strict then ed25519 && is_true mldsa44 else ed25519 && not (is_false mldsa44)

module _ (g : Signing) where
  pub record Keys : Type 0 where
    pub ed25519_private : g.PrivateKey
    pub ed25519_public : g.PublicKey
    pub mldsa44_private : g.PrivateKey
    pub mldsa44_public : g.PublicKey

  -- `mldsa44` may be left out by the caller.
  pub record PublicKeys : Type 0 where
    pub ed25519 : g.PublicKey
    pub mldsa44 : Option g.PublicKey

  -- emitEnvelope, of the statement whose canonical bytes are given
  unfoldable pub emit_envelope : List ℕ → Keys → DsseEnvelope
  unfolding pre_authentication
  emit_envelope payload keys =
      let to_sign = pre_authentication dsse_payload_type payload in
      record {
        payload_type = dsse_payload_type;
        payload = payload;
        signatures =
            (record {
              keyid = g.key_id keys.ed25519_public;
              alg = "EdDSA";
              sig = g.ed25519_sign to_sign keys.ed25519_private;
            })
            ∷ (record {
              keyid = g.key_id keys.mldsa44_public;
              alg = "ML-DSA-44";
              sig = g.mldsa44_sign to_sign keys.mldsa44_private;
            })
            ∷ [];
      }

  unfoldable pub check_ed25519 : List ℕ → PublicKeys → Option DsseSignature → Bool
  check_ed25519 to_verify keys none = false
  check_ed25519 to_verify keys (some s) = g.ed25519_verify to_verify keys.ed25519 s.sig

  check_mldsa44_with : List ℕ → Option g.PublicKey → DsseSignature → Option Bool
  check_mldsa44_with to_verify none s = none
  check_mldsa44_with to_verify (some key) s = some (g.mldsa44_verify to_verify key s.sig)

  unfoldable pub check_mldsa44 : List ℕ → PublicKeys → Option DsseSignature → Option Bool
  unfolding check_mldsa44_with
  check_mldsa44 to_verify keys none = none
  check_mldsa44 to_verify keys (some s) = check_mldsa44_with to_verify keys.mldsa44 s

  module _ {ℓ} {A : Type ℓ} (read : List ℕ → Option A) where
    -- The end of verifyEnvelope: a payload that is no JSON is not valid.
    unfoldable pub with_statement : Bool → Bool → Option Bool → List ℕ → Verification A
    with_statement valid ed mldsa payload =
        if valid
        then record {
          valid = elim (read payload) [ none ↦ false | some s ↦ true ];
          ed25519 = ed;
          mldsa44 = mldsa;
          statement = read payload;
        }
        else record { valid = false; ed25519 = ed; mldsa44 = mldsa; statement = none }

    unfoldable pub verify_envelope : Bool → DsseEnvelope → PublicKeys → Verification A
    unfolding with_statement
    verify_envelope strict e keys =
        let to_verify = pre_authentication e.payload_type e.payload in
        let ed = check_ed25519 to_verify keys (find (has_alg "EdDSA") e.signatures) in
        let mldsa = check_mldsa44 to_verify keys (find (has_alg "ML-DSA-44") e.signatures) in
        if str_eq e.payload_type dsse_payload_type
        then with_statement (accepts strict ed mldsa) ed mldsa e.payload
        else record { valid = false; ed25519 = false; mldsa44 = none; statement = none }
