-- ===== src/Run/Order/Rounds.antt =====
-- The rounds of `orderStepsByEdges` (hub/run.mjs): its loop ends by itself.
use ainumbers_helm.Prelude.{
  ℕ, zero, suc, ◌+◌, ◌≤◌, ◌≡◌, refl, String, true, List, [], ◌∷◌, ◌++◌, ◌==◌, if◌then◌else◌, length,
  Bool-cases, arith, inl, inr,
}
use ainumbers_helm.Run.Manifest.{Step}
use ainumbers_helm.Run.Order.{
  Edge, index_edges, indegrees, zeros_from, insert_sorted, lower, degree_at, release, order_loop,
}

-- How many steps still wait for another one.
waiting : List ℕ → ℕ
waiting [] = 0
waiting (d ∷ ds) = (if d == 0 then 0 else 1) + waiting ds

length-insert_sorted : (i : ℕ) (is : List ℕ) → length (insert_sorted i is) ≡ suc (length is)
unfolding insert_sorted
length-insert_sorted i [] = refl
length-insert_sorted i (j ∷ js) = ground (arith, length-insert_sorted i js)

waiting-lower : (t : ℕ) (ds : List ℕ) → waiting (lower t ds) ≤ waiting ds
unfolding lower waiting
waiting-lower t [] = omega arith
waiting-lower zero (d ∷ ds) = ground arith
waiting-lower (suc t) (d ∷ ds) = omega (arith, waiting-lower t ds)

waiting-released :
    (t : ℕ) (ds : List ℕ) → (degree_at t ds == 1) ≡ true → suc (waiting (lower t ds)) ≤ waiting ds
unfolding lower waiting degree_at
waiting-released t [] h = cc
waiting-released zero (d ∷ ds) h = ground arith
waiting-released (suc t) (d ∷ ds) h = omega (arith, waiting-released t ds h)

release-falls :
    (i : ℕ) (es : List Edge) (ds ready : List ℕ)
    → length (release i es ds ready).1 + waiting (release i es ds ready).0
      ≤ length ready + waiting ds
unfolding release
release-falls i [] ds ready = omega arith
release-falls i (e ∷ es) ds ready = elim (Bool-cases (e.0 == i)) [
  | inr other ↦ rw other (release-falls i es ds ready)
  | inl own ↦ elim (Bool-cases (degree_at e.1 ds == 1)) [
    | inl last ↦
        rw (own, last)
          (omega (
            arith,
            release-falls i es (lower e.1 ds) (insert_sorted e.1 ready),
            length-insert_sorted e.1 ready,
            waiting-released e.1 ds last,
          ))
    | inr more ↦
        rw (own, more)
          (omega (arith, release-falls i es (lower e.1 ds) ready, waiting-lower e.1 ds))
  ]
]

order_loop-more :
    (fuel m : ℕ) (es : List Edge) (ds ready out : List ℕ)
    → length ready + waiting ds ≤ fuel
    → fuel ≤ m
    → order_loop m es ds ready out ≡ order_loop fuel es ds ready out
unfolding order_loop
order_loop-more zero zero es ds ready out h l = refl
order_loop-more zero (suc m) es ds [] out h l = refl
order_loop-more zero (suc m) es ds (i ∷ ready) out h l = absurd (omega arith)
order_loop-more (suc fuel) zero es ds ready out h l = absurd (omega arith)
order_loop-more (suc fuel) (suc m) es ds [] out h l = refl
order_loop-more (suc fuel) (suc m) es ds (i ∷ ready) out h l =
    order_loop-more fuel m es (release i es ds ready).0 (release i es ds ready).1 (out ++ i ∷ [])
      (omega (arith, release-falls i es ds ready)) (omega arith)

zeros-waiting : (i : ℕ) (ds : List ℕ) → length (zeros_from i ds) + waiting ds ≡ length ds
unfolding zeros_from waiting
zeros-waiting i [] = refl
zeros-waiting i (d ∷ ds) = ground (arith, zeros-waiting (suc i) ds)

length-indegrees : (i n : ℕ) (es : List Edge) → length (indegrees i n es) ≡ n
unfolding indegrees
length-indegrees i zero es = refl
length-indegrees i (suc n) es = omega (arith, length-indegrees (suc i) n es)

-- As many rounds as there are steps are enough: the loop with any number of rounds more gives the
-- same order and leaves the same degrees, for any steps and any edges, also cyclic ones.
pub rounds_enough :
    (steps : List Step) (edges : List (String × String)) (m : ℕ)
    → length steps ≤ m
    → let es = index_edges steps edges [] in
      let degrees = indegrees 0 (length steps) es in
      order_loop m es degrees (zeros_from 0 degrees) []
      ≡ order_loop (length steps) es degrees (zeros_from 0 degrees) []
rounds_enough steps edges m l =
    let es = index_edges steps edges [] in
    let degrees = indegrees 0 (length steps) es in
    order_loop-more (length steps) m es degrees (zeros_from 0 degrees) []
      (omega (arith, zeros-waiting 0 degrees, length-indegrees 0 (length steps) es)) l
