-- ===== src/Run/Plan.antt =====
-- `planSteps` and `validateManifestBindings` of hub/run.mjs. The digest of a record, the SHA-256 of
-- its canonical text, is the parameter `digest`.
use ainumbers_helm.Json.{Json, null, bool, num, str, arr, obj, Items, nil, cons, Fields, end, field}
use ainumbers_helm.Prelude.{
  ℕ, suc, String, ◌<>◌, Bool, true, false, ◌&&◌, Option, none, some, List, [], ◌∷◌, ◌++◌, map, ◌==◌,
  str_eq, if◌then◌else◌, length,
}
use ainumbers_helm.Prelude.Dict.{Dict, get, set}
use ainumbers_helm.Run.Manifest.{
  Item, Binding, Manifest, Kind, connectors, attested_artifacts, nodes, gates, actions, StepBinding,
  Step, Result, ok, err, conflicting_params, ◌>>=◌, check_bindings,
}
use ainumbers_helm.Run.Order.{order_steps_by_edges}

abbrev pub layer_key : Kind → String
layer_key connectors = "connectors"
layer_key attested_artifacts = "attested_artifacts"
layer_key nodes = "nodes"
layer_key gates = "gates"
layer_key actions = "actions"

-- `${key}:${item[idField]}`
unfoldable pub step_id_of : Kind → String → String
step_id_of kind id = layer_key kind <> ":" <> id

abbrev bool_eq : Bool → Bool → Bool
bool_eq true b = b
bool_eq false true = false
bool_eq false false = true

-- JSON.stringify(a) === JSON.stringify(b)
unfoldable mutual
  pub json_eq : Json → Json → Bool
  json_eq null null = true
  json_eq (bool a) (bool b) = bool_eq a b
  json_eq (num a) (num b) = a == b
  json_eq (str a) (str b) = str_eq a b
  json_eq (arr a) (arr b) = items_eq a b
  json_eq (obj a) (obj b) = fields_eq a b
  json_eq _ _ = false

  pub items_eq : Items → Items → Bool
  items_eq nil nil = true
  items_eq (cons a as') (cons b bs) = json_eq a b && items_eq as' bs
  items_eq _ _ = false

  pub fields_eq : Fields → Fields → Bool
  fields_eq end end = true
  fields_eq (field j a as') (field k b bs) = str_eq j k && json_eq a b && fields_eq as' bs
  fields_eq _ _ = false

-- The loop over bindings that declare params for a connector.
collect_params : Dict Json → List Binding → Result (Dict Json)
unfolding json_eq
collect_params seen [] = ok seen
collect_params seen (b ∷ bs) = elim b.params [
  | none ↦ collect_params seen bs
  | some p ↦ elim (get seen b.connector_id) [
    | none ↦ collect_params (set seen b.connector_id p) bs
    | some q ↦
        if json_eq q p
        then collect_params (set seen b.connector_id p) bs
        else err (conflicting_params b.connector_id)
  ]
]

bound_to : String → List Binding → List StepBinding
unfolding step_id_of
bound_to node_id [] = []
bound_to node_id (b ∷ bs) =
    let rest = bound_to node_id bs in
    if str_eq b.feeds_node_id node_id
    then record {
      step_id = b.step_id;
      connector_id = b.connector_id;
      feeds_param = b.feeds_param;
      from_step_id = step_id_of connectors b.connector_id;
    }
      ∷ rest
    else rest

some_list : List StepBinding → Option (List StepBinding)
some_list [] = none
some_list (b ∷ bs) = some (b ∷ bs)

bind_step : List Binding → Dict Json → Step → Step
unfolding bound_to some_list
bind_step bs params s = elim s.kind [
  | nodes ↦ record s { bindings = some_list (bound_to s.item.id bs) }
  | connectors ↦ record s { params = get params s.item.id }
  | _ ↦ s
]

module _ (digest : Json → String) where
  digest_or : Option String → Json → String
  digest_or none item = digest item
  digest_or (some k) item = k

  -- `key === "nodes" && item.kernel_digest`: an empty digest counts as none there, not in `??`.
  node_digest : Option String → Item → String
  unfolding digest_or
  node_digest none item = digest item.json
  node_digest (some k) item =
      if str_eq k ""
      then k
      else digest (
          obj (
            field "kernel_digest" (str k)
              (field "policy_parameters" (obj item.policy_parameters) end)))

  content_digest : Kind → Item → String
  unfolding node_digest digest_or
  content_digest nodes item = node_digest item.kernel_digest item
  content_digest _ item = digest_or item.kernel_digest item.json

  base_layer : Kind → ℕ → List Item → List Step
  unfolding content_digest step_id_of
  base_layer kind seq [] = []
  base_layer kind seq (item ∷ items) =
      record {
        step_id = step_id_of kind item.id;
        kind = kind;
        item = item;
        content_digest = content_digest kind item;
        seq = seq;
        bindings = none;
        params = none;
      }
      ∷ base_layer kind (suc seq) items

  abbrev add_layer : List Step → Kind → List Item → List Step
  add_layer steps kind items = steps ++ base_layer kind (length steps) items

  unfoldable pub base_steps : Manifest → List Step
  unfolding base_layer
  base_steps m =
      add_layer
        (add_layer
          (add_layer
            (add_layer (add_layer [] connectors m.connectors) attested_artifacts
              m.attested_artifacts)
            nodes m.nodes)
          gates m.gates)
        actions m.actions

  unfoldable pub plan_steps : Manifest → Result (List Step)
  unfolding base_steps collect_params bind_step step_id_of
  plan_steps m = elim m.connector_inputs [
    | none ↦ ok (base_steps m)
    | some bs ↦ collect_params [] bs >>= λ params.
        order_steps_by_edges (map (bind_step bs params) (base_steps m)) (
          map
            (λ (b : Binding).
              (step_id_of connectors b.connector_id, step_id_of nodes b.feeds_node_id))
            bs)
  ]

  unfoldable pub validate_manifest_bindings : Manifest → Result (Unit {0})
  unfolding plan_steps
  validate_manifest_bindings m = elim m.connector_inputs [
    | none ↦ ok tt
    | some bs ↦ check_bindings m [] bs >>= λ _. (plan_steps m >>= λ _. ok tt)
  ]
