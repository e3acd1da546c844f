-- ===== src/Orchestrator/StateMachine/Sequence.antt =====
-- state_machine.py: the walk that `next_step` takes through the steps.
use governed_agent_platform.Prelude.{
  ℕ, zero, suc, ◌≡◌, refl, Option, none, some, List, [], ◌∷◌, take,
}
use governed_agent_platform.Prelude.Exec.{ok, raised}
use governed_agent_platform.Orchestrator.Models.{RunStep}
use governed_agent_platform.Orchestrator.StateMachine.{ordered_steps, next_step}

-- The first `n` steps that `next_step` gives, each from the one before.
pub walk : ℕ → Option RunStep → List RunStep
walk zero current = []
walk (suc n) current = elim (next_step current) [
  | ok step ↦ step ∷ walk n (some step)
  | raised e ↦ []
]

-- From no step, `next_step` gives the ordered steps one after the other, and ends with the last.
pub walk-ordered_steps : (n : ℕ) → walk n none ≡ take n ordered_steps
unfolding walk next_step
walk-ordered_steps zero = refl
walk-ordered_steps (suc zero) = refl
walk-ordered_steps (suc (suc zero)) = refl
walk-ordered_steps (suc (suc (suc zero))) = refl
walk-ordered_steps (suc (suc (suc (suc zero)))) = refl
walk-ordered_steps (suc (suc (suc (suc (suc zero))))) = refl
walk-ordered_steps (suc (suc (suc (suc (suc (suc zero)))))) = refl
walk-ordered_steps (suc (suc (suc (suc (suc (suc (suc zero))))))) = refl
walk-ordered_steps (suc (suc (suc (suc (suc (suc (suc (suc n)))))))) = refl
