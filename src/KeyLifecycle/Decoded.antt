-- ===== src/KeyLifecycle/Decoded.antt =====
-- The rotations that `verifyKeyLineage` of hub/key-lifecycle.mjs reads from its envelopes.
use ainumbers_helm.Prelude.{
  String, ◌≡◌, refl, subst, none, some, List, [], ◌∷◌, str_eq, All, Bool-cases, Option-cases, inl,
  inr, ◌⊎◌,
}
use ainumbers_helm.Prelude.Dict.{Dict, set}
use ainumbers_helm.KeyLifecycle.{
  Crypto, Envelope, Event, Rotation, Parsed, unreadable, json_null, event, values, dedupe,
  event_digest, decode_rotations,
}

abbrev pub Occurs : Envelope → List Envelope → Type 0
Occurs e [] = ⊥
Occurs e (x ∷ xs) = (x ≡ e) ⊎ Occurs e xs

pub Parsed-cases : (p : Parsed) → (p ≡ unreadable) ⊎ (p ≡ json_null) ⊎ ((v : Event) × (p ≡ event v))
Parsed-cases unreadable = inl refl
Parsed-cases json_null = inr (inl refl)
Parsed-cases (event v) = inr (inr (v, refl))

module _ (c : Crypto) where
  -- A rotation that was read from one of the envelopes.
  pub record Genuine (es : List Envelope) (r : Rotation) : Type 0 where
    pub submitted : Occurs r.envelope es
    pub read : c.parse r.envelope.payload ≡ event r.event
    pub digested : r.digest ≡ event_digest c r.envelope

  -- The distinct rotations of the envelopes, as the audit has them; none where one is unreadable.
  abbrev pub rotations_of : List Envelope → List Rotation
  rotations_of es = elim (decode_rotations c es) [ none ↦ [] | some rs ↦ values (dedupe [] rs) ]

  -- The rotation that an envelope holds.
  abbrev pub rotation_of : Envelope → Event → Rotation
  rotation_of x v = record { envelope = x; event = v; digest = event_digest c x }

  pub record Decoded (e : Envelope) (es : List Envelope) (rs : List Rotation) : Type 0 where
    pub value : Event
    pub more : List Rotation
    pub read : c.parse e.payload ≡ event value
    pub rest : decode_rotations c es ≡ some more
    pub made : rs ≡ rotation_of e value ∷ more

  pub Decoded-uncons :
      (e : Envelope) (es : List Envelope) (rs : List Rotation)
      → decode_rotations c (e ∷ es) ≡ some rs
      → Decoded e es rs
  unfolding decode_rotations
  Decoded-uncons e es rs k = elim (Parsed-cases (c.parse e.payload)) [
    | inl bad ↦ absurd (cc (rw (decode_rotations, bad) at k))
    | inr (inl bad) ↦ absurd (cc (rw (decode_rotations, bad) at k))
    | inr (inr (v, good)) ↦ elim (Option-cases (decode_rotations c es)) [
      | inl bad ↦ absurd (cc (rw (decode_rotations, good, bad) at k))
      | inr (more, found) ↦ record {
        value = v;
        more = more;
        read = good;
        rest = found;
        made = cc (rw (decode_rotations, good, found) at k);
      }
    ]
  ]

  Occurs-cons :
      (x : Envelope) (es : List Envelope) (rs : List Rotation)
      → All (Genuine es) rs
      → All (Genuine (x ∷ es)) rs
  Occurs-cons x es [] g = tt
  Occurs-cons x es (r ∷ rs) g = (
    record { submitted = inr g.0.submitted; read = g.0.read; digested = g.0.digested },
    Occurs-cons x es rs g.1,
  )

  pub decoded-Genuine :
      (es : List Envelope) (rs : List Rotation)
      → decode_rotations c es ≡ some rs
      → All (Genuine es) rs
  unfolding decode_rotations
  decoded-Genuine [] rs k = let same : [] ≡ rs = cc in subst (All (Genuine [])) same tt
  decoded-Genuine (e ∷ es) rs k =
      let d = Decoded-uncons e es rs k in
      rw (d.made) (
        record { submitted = inl refl; read = d.read; digested = refl },
        Occurs-cons e es d.more (decoded-Genuine es d.more d.rest),
      )

  values-set :
      (es : List Envelope) (d : Dict Rotation) (k : String) (r : Rotation)
      → All (Genuine es) (values d)
      → Genuine es r
      → All (Genuine es) (values (set d k r))
  unfolding set
  values-set es [] k r g q = (q, tt)
  values-set es ((j, s) ∷ d) k r g q = elim (Bool-cases (str_eq j k)) [
    | inl same ↦ rw same (q, g.1)
    | inr other ↦ rw other (g.0, values-set es d k r g.1 q)
  ]

  pub dedupe-Genuine :
      (es : List Envelope) (d : Dict Rotation) (rs : List Rotation)
      → All (Genuine es) (values d)
      → All (Genuine es) rs
      → All (Genuine es) (values (dedupe d rs))
  unfolding dedupe
  dedupe-Genuine es d [] g q = g
  dedupe-Genuine es d (r ∷ rs) g q =
      dedupe-Genuine es (set d r.digest r) rs (values-set es d r.digest r g q.0) q.1
