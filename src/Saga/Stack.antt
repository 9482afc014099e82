-- ===== src/Saga/Stack.antt =====
-- src/saga/compensation-stack.ts: the steps that completed, oldest first.
use jobflow_project.Common.{List, Option, [], if◌then◌else◌, length, none, some, ℕ, ◌++◌, ◌∷◌}
use jobflow_project.Saga.Types.{SagaStepState, is_completed}

module _ {ℓ} {A : Type ℓ} where
  unfoldable pub reverse_onto : List A → List A → List A
  reverse_onto acc [] = acc
  reverse_onto acc (x ∷ xs) = reverse_onto (x ∷ acc) xs

abbrev pub CompensationStack : Type 0 → Type 0
CompensationStack D = List (SagaStepState D)

module _ {D : Type 0} where
  unfoldable pub push : SagaStepState D → CompensationStack D → CompensationStack D
  push step stack = if is_completed step.status then stack ++ step ∷ [] else stack

  unfoldable pub to_compensate_order : CompensationStack D → List (SagaStepState D)
  unfolding reverse_onto
  to_compensate_order stack = reverse_onto [] stack

  unfoldable pub peek : CompensationStack D → Option (SagaStepState D)
  peek [] = none
  peek (s ∷ []) = some s
  peek (s ∷ t ∷ rest) = peek (t ∷ rest)

  unfoldable pub all_but_last : CompensationStack D → CompensationStack D
  all_but_last [] = []
  all_but_last (s ∷ []) = []
  all_but_last (s ∷ t ∷ rest) = s ∷ all_but_last (t ∷ rest)

  unfoldable pub pop : CompensationStack D → Option (SagaStepState D) × CompensationStack D
  unfolding peek all_but_last
  pop stack = (peek stack, all_but_last stack)

  unfoldable pub size : CompensationStack D → ℕ
  size stack = length stack

  unfoldable pub clear : CompensationStack D → CompensationStack D
  clear stack = []
