-- ===== src/Run/Order.antt =====
-- `orderStepsByEdges` of hub/run.mjs: a stable topological order by the lowest ready index.
pub mod Rounds
use ainumbers_helm.Prelude.{
  ℕ, zero, suc, ◌+◌, ◌-◌, String, Bool, false, Option, none, some, List, [], ◌∷◌, ◌++◌, leb, ◌==◌,
  str_eq, if◌then◌else◌, length, any,
}
use ainumbers_helm.Run.Manifest.{Step, Result, ok, err, binding_cycle}

abbrev pub Edge : Type 0
Edge = ℕ × ℕ

-- The Map from a step's id to its index: of two steps with one id the later counts.
index_from : ℕ → List Step → String → Option ℕ
index_from i [] id = none
index_from i (s ∷ ss) id = elim (index_from (suc i) ss id) [
  | some j ↦ some j
  | none ↦ if str_eq s.step_id id then some i else none
]

abbrev same_edge : Edge → Edge → Bool
same_edge a b = if a.0 == b.0 then a.1 == b.1 else false

add_edge : Option ℕ → Option ℕ → List Edge → List Edge
add_edge (some f) (some t) es = if any (same_edge (f, t)) es then es else es ++ (f, t) ∷ []
add_edge _ _ es = es

-- The adjacency sets, as the edges between indices in the order in which they are added.
unfoldable pub index_edges : List Step → List (String × String) → List Edge → List Edge
unfolding index_from add_edge
index_edges steps [] es = es
index_edges steps ((from, to) ∷ rest) es =
    index_edges steps rest (add_edge (index_from 0 steps from) (index_from 0 steps to) es)

count_into : ℕ → List Edge → ℕ
count_into t [] = 0
count_into t (e ∷ es) = (if e.1 == t then 1 else 0) + count_into t es

pub indegrees : ℕ → ℕ → List Edge → List ℕ
indegrees i zero es = []
indegrees i (suc n) es = count_into i es ∷ indegrees (suc i) n es

pub zeros_from : ℕ → List ℕ → List ℕ
zeros_from i [] = []
zeros_from i (d ∷ ds) = let rest = zeros_from (suc i) ds in if d == 0 then i ∷ rest else rest

insert_sorted : ℕ → List ℕ → List ℕ
insert_sorted i [] = i ∷ []
insert_sorted i (j ∷ js) = let rest = insert_sorted i js in if leb i j then i ∷ j ∷ js else j ∷ rest

lower : ℕ → List ℕ → List ℕ
lower t [] = []
lower zero (d ∷ ds) = (d - 1) ∷ ds
lower (suc t) (d ∷ ds) = d ∷ lower t ds

degree_at : ℕ → List ℕ → ℕ
degree_at t [] = 0
degree_at zero (d ∷ ds) = d
degree_at (suc t) (d ∷ ds) = degree_at t ds

-- `for (const t of adjacency[i]) if (--indegree[t] === 0) ready.push(t);`
-- The decrement gives 0 from 1 alone; below 0 it would stay unequal to 0, as 0 does here.
release : ℕ → List Edge → List ℕ → List ℕ → List ℕ × List ℕ
unfolding lower degree_at insert_sorted
release i [] degrees ready = (degrees, ready)
release i (e ∷ es) degrees ready =
    if e.0 == i
    then release i es (lower e.1 degrees)
        (if degree_at e.1 degrees == 1 then insert_sorted e.1 ready else ready)
    else release i es degrees ready

-- `ready` is kept sorted, so its head is what sort and shift give. One round orders one step.
pub order_loop : ℕ → List Edge → List ℕ → List ℕ → List ℕ → List ℕ × List ℕ
unfolding release
order_loop zero es degrees ready out = (out, degrees)
order_loop (suc fuel) es degrees [] out = (out, degrees)
order_loop (suc fuel) es degrees (i ∷ ready) out =
    let (degrees', ready') = release i es degrees ready in
    order_loop fuel es degrees' ready' (out ++ i ∷ [])

step_at : List Step → ℕ → List Step
step_at [] i = []
step_at (s ∷ ss) zero = s ∷ []
step_at (s ∷ ss) (suc i) = step_at ss i

steps_at : List Step → List ℕ → List Step
unfolding step_at
steps_at steps [] = []
steps_at steps (i ∷ is) = step_at steps i ++ steps_at steps is

positive_ids : List Step → List ℕ → List String
positive_ids (s ∷ ss) (d ∷ ds) =
    let rest = positive_ids ss ds in if d == 0 then rest else s.step_id ∷ rest
positive_ids _ _ = []

-- The loop gets as many rounds as there are steps.
unfoldable pub order_steps_by_edges : List Step → List (String × String) → Result (List Step)
unfolding index_edges indegrees zeros_from order_loop steps_at positive_ids count_into
order_steps_by_edges steps [] = ok steps
order_steps_by_edges steps (edge ∷ edges) =
    let es = index_edges steps (edge ∷ edges) [] in
    let degrees = indegrees 0 (length steps) es in
    let (out, left) = order_loop (length steps) es degrees (zeros_from 0 degrees) [] in
    if length out == length steps
    then ok (steps_at steps out)
    else err (binding_cycle (positive_ids steps left))
