-- ===== src/Rollout/World/Ends.antt =====
-- That a rollout comes to its end.
use Prim.Native.Nat.{min}
use kubevela_catalog.Base.{
  ℕ, zero, suc, ◌+◌, ◌-◌, ◌≤◌, ◌≡◌, ◌≢◌, ◌⊎◌, inl, inr, List, none, true, sym, arith, Bool-cases,
  ◌==◌,
}
use kubevela_catalog.K8s.{Unstructured}
use kubevela_catalog.Rollout.{Trait, Call, Api}
use kubevela_catalog.Rollout.Scale.Rounds.{Accepts}
use kubevela_catalog.Rollout.World.{World}
use kubevela_catalog.Rollout.World.Turn.{HasNumbers, IsAt, turn, turn_scales, turn_completes}

module _ (api : Api) (t : Trait) (old_workload : Unstructured) where
  unfoldable pub turns : ℕ → World → World
  turns zero w = w
  turns (suc n) w = turns n (turn api t old_workload w)

  module _ (accepts : Accepts api) (target batch unavailable : ℕ)
      (set : HasNumbers t target batch unavailable) where
    IsAt-IsAt : (w : World) (r o r' o' : ℕ) → r ≡ r' → o ≡ o' → IsAt w r o → IsAt w r' o'
    IsAt-IsAt w r o r' o' er eo is = rw (sym er, sym eo) is

    -- whether there is something left to do
    left_cases : (r o : ℕ) → ((r ≡ target) × (o ≡ 0)) ⊎ ((r ≢ target) ⊎ (o ≢ 0))
    left_cases r o = elim (Bool-cases (r == target)) [
      | inr e ↦ inr (inl (λ same. ground arith))
      | inl e ↦ elim (Bool-cases (o == 0)) [
        | inr f ↦ inr (inr (λ same. ground arith))
        | inl f ↦ inl (ground arith, ground arith)
      ]
    ]

    module _ (takes : (u : Unstructured) (h : List Call) → api.delete_workload u h ≡ none)
        (fits : target + batch ≤ 2147483647) (ufits : unavailable ≤ 2147483647) where
      turn-IsAt :
          (w : World) (r o : ℕ)
          → r ≤ target
          → o ≤ 2147483647
          → IsAt w r o
          → IsAt (turn api t old_workload w) (min target (r + batch)) (o - unavailable)
      turn-IsAt w r o le ole is = elim (left_cases r o) [
        | inl (all_up, all_down) ↦
            IsAt-IsAt (turn api t old_workload w) target 0 _ _ (omega (arith, all_up))
              (omega (arith, all_down))
              (turn_completes api t old_workload accepts target batch unavailable set w takes
                (IsAt-IsAt w r o target 0 all_up all_down is)).0
        | inr left ↦
            turn_scales api t old_workload accepts target batch unavailable set w r o fits ufits le
              ole left is
      ]

      turns-IsAt :
          (n : ℕ) (w : World) (r o : ℕ)
          → 1 ≤ batch
          → 1 ≤ unavailable
          → r ≤ target
          → o ≤ 2147483647
          → target ≤ r + n
          → o ≤ n
          → IsAt w r o
          → IsAt (turns n w) target 0
      unfolding turns
      turns-IsAt zero w r o hb hu le ole up down is =
          IsAt-IsAt w r o target 0 (omega (arith, up)) (omega (arith, down)) is
      turns-IsAt (suc n) w r o hb hu le ole up down is =
          turns-IsAt n (turn api t old_workload w) (min target (r + batch)) (o - unavailable) hb hu
            (omega arith) (omega arith) (omega arith) (omega arith) (turn-IsAt w r o le ole is)

-- Take a server that takes every update of a deployment and every deletion of a workload, a trait
-- with a target, a batch and a bound of unavailable replicas, the last two at least 1, that fit an
-- int32, and a settled world of r new replicas, at most the target, and o old ones. Then after n
-- rounds of the controller, each followed by the cluster making the wanted replicas ready, the new
-- deployment has the target number of replicas and the old one 0, if n is at least target - r and
-- at least o; and the next round deletes the old workload and leaves both so.
pub rollout_terminates :
    (api : Api) (t : Trait) (old_workload : Unstructured) (target batch unavailable : ℕ)
    → Accepts api
    → ((u : Unstructured) (h : List Call) → api.delete_workload u h ≡ none)
    → HasNumbers t target batch unavailable
    → target + batch ≤ 2147483647
    → unavailable ≤ 2147483647
    → 1 ≤ batch
    → 1 ≤ unavailable
    → (n : ℕ) (w : World) (r o : ℕ) → r ≤ target
    → o ≤ 2147483647
    → target ≤ r + n
    → o ≤ n
    → IsAt w r o
    → IsAt (turns api t old_workload n w) target 0
      × (IsAt (turn api t old_workload (turns api t old_workload n w)) target 0
          × ((turn api t old_workload (turns api t old_workload n w)).deleted ≡ true))
rollout_terminates api t old_workload target batch unavailable accepts takes set fits ufits hb hu n
      w r o le ole up down is =
    let ends =
      turns-IsAt api t old_workload accepts target batch unavailable set takes fits ufits n w r o hb
        hu le ole up down is in
    (
      ends,
      turn_completes api t old_workload accepts target batch unavailable set
          (turns api t old_workload n w) takes ends,
    )
