-- ===== src/Run/Manifest.antt =====
-- hub/run.mjs: manifests as the engine reads them, steps, and the check of the declared bindings.
-- An item keeps its whole JSON beside the members that the code names.
use ainumbers_helm.Json.{Json, Fields, end, field}
use ainumbers_helm.Prelude.{
  ℕ, String, Bool, true, false, Option, none, some, List, [], ◌∷◌, ◌++◌, map, str_eq, if◌then◌else◌,
  find, any, keep,
}

pub record Item : Type 0 where
  pub id : String
  pub kernel_digest : Option String
  pub policy_parameters : Fields
  pub json : Json

-- $defs.connectorInputStep
pub record Binding : Type 0 where
  pub step_id : String
  pub connector_id : String
  pub feeds_node_id : String
  pub feeds_param : String
  pub params : Option Json

pub record RequiredInput : Type 0 where
  pub target_node_id : String
  pub target_param : String

pub record Manifest : Type 0 where
  pub connectors : List Item
  pub attested_artifacts : List Item
  pub nodes : List Item
  pub gates : List Item
  pub actions : List Item
  pub connector_inputs : Option (List Binding)
  pub required_inputs : List RequiredInput
  pub json : Json

-- the layers of STEP_LAYERS, in their order
pub data Kind : Type 0 where
  connectors attested_artifacts nodes gates actions : Kind

pub record StepBinding : Type 0 where
  pub step_id : String
  pub connector_id : String
  pub feeds_param : String
  pub from_step_id : String

pub record Step : Type 0 where
  pub step_id : String
  pub kind : Kind
  pub item : Item
  pub content_digest : String
  pub seq : ℕ
  pub bindings : Option (List StepBinding)
  pub params : Option Json

pub data Error : Type 0 where
  duplicate_binding unknown_connector unknown_node param_not_accepted : String → Error
  conflicting_params : String → Error
  binding_cycle : List String → Error
  unresolved_binding : String → String → Error
  tampered_result : String → Error
  no_runner : String → Error
  step_failed : String → Error
  illegal_transition : Error
  seq_drifted : ℕ → ℕ → Error
  unknown_run : String → Error
  missing_result : String → Error
  journal_refused : Error

pub data Result {ℓ} (A : Type ℓ) : Type ℓ where
  ok : A → Result A
  err : Error → Result A

-- A throw ends what follows.
infixl 5 ◌>>=◌
abbrev pub ◌>>=◌ : {A B : Type 0} → Result A → (A → Result B) → Result B
err thrown >>= next = err thrown
ok value >>= next = next value

keys : Fields → List String
keys end = []
keys (field k v fs) = k ∷ keys fs

targets : String → List RequiredInput → List String
targets node_id rs =
    map (λ (r : RequiredInput). r.target_param) (keep (λ r. str_eq r.target_node_id node_id) rs)

-- What a node accepts as a bound parameter; `none` where there is no such node.
unfoldable pub accepted_params : Manifest → String → Option (List String)
unfolding keys targets
accepted_params m node_id = elim (find (λ (n : Item). str_eq n.id node_id) m.nodes) [
  | none ↦ none
  | some node ↦ some (keys node.policy_parameters ++ targets node_id m.required_inputs)
]

abbrev pub member : String → List String → Bool
member s = any (λ x. str_eq x s)

is_refused : List String → String → Bool
is_refused [] p = false
is_refused (a ∷ as') p = if member p (a ∷ as') then false else true

check_binding : Manifest → List String → Binding → Result (Unit {0})
unfolding accepted_params is_refused
check_binding m seen b =
    if member b.step_id seen
    then err (duplicate_binding b.step_id)
    else if member b.connector_id (map (λ (c : Item). c.id) m.connectors)
    then elim (accepted_params m b.feeds_node_id) [
      | none ↦ err (unknown_node b.feeds_node_id)
      | some accepted ↦
          if is_refused accepted b.feeds_param
          then err (param_not_accepted b.feeds_param)
          else ok tt
    ]
    else err (unknown_connector b.connector_id)

-- The loop of `validateManifestBindings`; the cycle check of its last line is `plan_steps`.
unfoldable pub check_bindings : Manifest → List String → List Binding → Result (Unit {0})
unfolding check_binding
check_bindings m seen [] = ok tt
check_bindings m seen (b ∷ bs) =
    let rest = check_bindings m (b.step_id ∷ seen) bs in check_binding m seen b >>= λ _. rest
