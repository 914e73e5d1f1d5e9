-- ===== src/Rollout/World/Served.antt =====
-- Whole runs of the rollout system.
use kubevela_catalog.Base.{ℕ, ◌≡◌, [], ◌∷◌, some, true, false, refl, arith, ap, sym, ◌∙◌}
use kubevela_catalog.Base.Int.{pos}
use kubevela_catalog.K8s.{Unstructured}
use kubevela_catalog.Rollout.{Trait, Api}
use kubevela_catalog.Rollout.Reconcile.{advance_rollout}
use kubevela_catalog.Rollout.World.{
  World, landed, Step, round, new_ready, old_ready, Run, start, later, Progress, at, Move, shift,
  hand_over, Moves, none_yet, then_move,
}
use kubevela_catalog.Rollout.World.Allowed.{advance_rollout-IsRound}
use kubevela_catalog.Rollout.World.Refines.{
  IsBounded, pos_injective, Shows, landed-IsTaken, is_rollout, taken-Shows, round-Move,
}

-- The old workload is only gone with the new one at its target and the old one at 0.
abbrev pub IsServed : ℕ → Progress → Type 0
IsServed target p = p.handed_over ≡ true → (p.up ≡ target) × (p.down ≡ 0)

module _ {target batch unavailable : ℕ} where
  Move-IsServed :
      {p q : Progress} → Move target batch unavailable p q → IsServed target p → IsServed target q
  Move-IsServed (shift grows below by_batch shrinks by_unavailable) served =
      λ gone. let (up, down) = served gone in (omega (arith, up), omega (arith, down))
  Move-IsServed hand_over served = λ gone. (refl, refl)

  Moves-IsServed :
      {p q : Progress} → Moves target batch unavailable p q → IsServed target p → IsServed target q
  Moves-IsServed none_yet served = served
  Moves-IsServed (then_move ms m) served = Move-IsServed m (Moves-IsServed ms served)

module _ (t : Trait) (old_workload : Unstructured) (target batch unavailable : ℕ)
    (bounded : IsBounded t target batch unavailable) where
  -- The world shows a progress that is one move after this one. A move may leave all as it is.
  pub record Advances (p : Progress) (w : World) : Type 0 where
    pub progress : Progress
    pub move : Move target batch unavailable p progress
    pub shows : Shows t target batch unavailable w progress

  -- The world shows the progress that some moves lead to.
  pub record Reaches (p : Progress) (w : World) : Type 0 where
    pub progress : Progress
    pub moves : Moves target batch unavailable p progress
    pub shows : Shows t target batch unavailable w progress

  round-Advances :
      (w : World) (n o : ℕ) (api : Api)
      → Shows t target batch unavailable w (at n o false)
      → Advances
          (at n o false)
          (landed api (advance_rollout api t old_workload (w.new ∷ []) (w.old ∷ []) []).1 w)
  round-Advances w n o api shows =
      let h = (advance_rollout api t old_workload (w.new ∷ []) (w.old ∷ []) []).1 in
      let is = is_rollout t target batch unavailable w n o shows bounded in
      let calls =
        (advance_rollout-IsRound target batch unavailable n o w.new w.old api t old_workload is).at
          [] tt in
      let taken = landed-IsTaken t target batch unavailable w n o shows api h calls in
      record {
        progress = at taken.up taken.down (landed api h w).deleted;
        move = round-Move t target batch unavailable w n o shows (landed api h w) taken bounded;
        shows = taken-Shows t target batch unavailable w n o shows (landed api h w) taken;
      }

  stays :
      (w : World) (p : Progress)
      → Shows t target batch unavailable w p
      → Move target batch unavailable p p
  stays w p shows = shift (omega arith) shows.below (omega arith) (omega arith) (omega arith)

  -- Take a trait whose target, batch and bound of unavailable replicas are numbers that fit an int32,
  -- the target and the batch also together, and a world that shows some progress. Whatever step
  -- follows, a round of the controller against a server that may answer anything or a step of the
  -- cluster, the world then shows the progress after one move of the specification: the new
  -- deployment is not taken down nor past its target and goes up by at most a batch, the old one
  -- does not go up and goes down by at most the bound, and the old workload is deleted only if
  -- there was nothing left to move.
  pub rollout_refines :
      {w w' : World} (p : Progress)
      → Step t old_workload w w'
      → Shows t target batch unavailable w p
      → Advances p w'
  rollout_refines {w = w} p (round api kept) shows =
      let same : at p.up p.down false ≡ p = ap (at p.up p.down) (sym kept ∙ shows.handed_over) in
      rw (sym same) (round-Advances w p.up p.down api (rw same shows))
  rollout_refines {w = w} p (new_ready n r available wanted le) shows =
      let same : n ≡ p.up = pos_injective n p.up (sym wanted ∙ shows.up) in
      record {
        progress = p;
        move = stays w p shows;
        shows = record {
          up = shows.up;
          down = shows.down;
          handed_over = shows.handed_over;
          ready = r;
          is_ready = refl;
          ready_le = omega (arith, same);
          below = shows.below;
          down_fits = shows.down_fits;
          other_name = shows.other_name;
        };
      }
  rollout_refines {w = w} p (old_ready ready available) shows = record {
    progress = p;
    move = stays w p shows;
    shows = record {
      up = shows.up;
      down = shows.down;
      handed_over = shows.handed_over;
      ready = shows.ready;
      is_ready = shows.is_ready;
      ready_le = shows.ready_le;
      below = shows.below;
      down_fits = shows.down_fits;
      other_name = shows.other_name;
    };
  }

  run-Reaches :
      {w w' : World} (p : Progress)
      → Run t old_workload w w'
      → Shows t target batch unavailable w p
      → Reaches p w'
  run-Reaches p start shows = record { progress = p; moves = none_yet; shows = shows }
  run-Reaches p (later run step) shows =
      let so_far = run-Reaches p run shows in
      let now = rollout_refines so_far.progress step so_far.shows in
      record { progress = now.progress; moves = then_move so_far.moves now.move; shows = now.shows }

  -- Under the conditions of `rollout_refines`, in every run, if the old workload was still there at the start and is gone at the
  -- end, the new deployment then has the target number of replicas and the old one 0.
  pub gone_only_when_served :
      {w w' : World} (n o : ℕ)
      → Run t old_workload w w'
      → Shows t target batch unavailable w (at n o false)
      → w'.deleted ≡ true
      → (w'.new.replicas ≡ some (pos target)) × (w'.old.replicas ≡ some (pos 0))
  gone_only_when_served n o run shows gone =
      let end = run-Reaches (at n o false) run shows in
      let (up, down) =
        Moves-IsServed end.moves (λ e. absurd (cc e)) (sym end.shows.handed_over ∙ gone) in
      (end.shows.up ∙ ap (λ k. some (pos k)) up, end.shows.down ∙ ap (λ k. some (pos k)) down)
