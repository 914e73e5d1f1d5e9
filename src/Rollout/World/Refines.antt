-- ===== src/Rollout/World/Refines.antt =====
-- That the system implements its specification.
use kubevela_catalog.Base.{
  String, ℕ, ◌+◌, ◌≤◌, ◌≡◌, ◌⊎◌, inl, inr, List, [], ◌∷◌, Option, none, some, true, false, refl,
  arith, ap, sym, ◌∙◌, str_eq, str_eq_refl,
}
use kubevela_catalog.Base.Int.{ℤ, pos}
use kubevela_catalog.Base.Exec.Keeps.{AllCalls}
use kubevela_catalog.K8s.{Error, IntOrString}
use kubevela_catalog.Rollout.{Trait, Deployment, Call, update_deployment, delete_workload, Api}
use kubevela_catalog.Rollout.Scale.{is_scale_up_ready, all_ready}
use kubevela_catalog.Rollout.Reconcile.Deletion.{IsScaled}
use kubevela_catalog.Rollout.World.{
  World, effect, unless, refusal, landed, Progress, at, shift, hand_over, Move,
}
use kubevela_catalog.Rollout.World.Allowed.{having_replicas, IsRound, IsRollout}

name_of : (u d : Deployment) (r : ℕ) → u ≡ having_replicas d r → u.name ≡ d.name
name_of u d r e = ap (λ (x : Deployment). x.name) e

same_name :
    (u v d : Deployment) (r s : ℕ)
    → u ≡ having_replicas d r
    → v ≡ having_replicas d s
    → str_eq u.name v.name ≡ true
same_name u v d r s e f = rw (name_of u d r e, name_of v d s f) (str_eq_refl d.name)

ap2_str_eq : {a b c d : String} → a ≡ b → c ≡ d → str_eq b d ≡ false → str_eq a c ≡ false
ap2_str_eq e f k = rw (e, f) k

-- the test of the new deployment finds the target number of ready replicas
up_sound :
    (d : Deployment) (found : ℤ) (ready target : ℕ)
    → found ≡ pos target
    → d.ready_replicas ≡ pos ready
    → is_scale_up_ready (d ∷ []) found ≡ true
    → ready ≡ target
unfolding is_scale_up_ready all_ready
up_sound d found ready target e f up = ground arith

some_pos : (a b : ℤ) → some a ≡ some b → a ≡ b
some_pos a b e = cc e

pub pos_injective : (a b : ℕ) → some (pos a) ≡ some (pos b) → a ≡ b
pos_injective a b e = cc e

module _ (t : Trait) (target batch unavailable : ℕ) where
  -- the numbers of the trait, which fit an int32
  pub record IsBounded : Type 0 where
    pub replica : t.spec.replica ≡ some (pos target)
    pub batch_of : (v : IntOrString) → t.spec.batch ≡ some v → v.int_val ≡ pos batch
    pub unavailable_of :
        (v : IntOrString) → t.spec.max_unavailable ≡ some v → v.int_val ≡ pos unavailable
    pub target_fits : target + batch ≤ 2147483647
    pub unavailable_fits : unavailable ≤ 2147483647

  -- The world shows this progress. The new deployment has no more ready replicas than it wants.
  pub record Shows (w : World) (p : Progress) : Type 0 where
    pub up : w.new.replicas ≡ some (pos p.up)
    pub down : w.old.replicas ≡ some (pos p.down)
    pub handed_over : w.deleted ≡ p.handed_over
    pub ready : ℕ
    pub is_ready : w.new.ready_replicas ≡ pos ready
    pub ready_le : ready ≤ p.up
    pub below : p.up ≤ target
    pub down_fits : p.down ≤ 2147483647
    pub other_name : str_eq w.old.name w.new.name ≡ false

  module _ (w : World) (n o : ℕ) (shows : Shows w (at n o false)) where
    abbrev D : Type 0
    D = IsScaled t (w.new ∷ []) (w.old ∷ [])

    -- How far the calls of a round have taken the world.
    pub record IsTaken (w' : World) : Type 0 where
      pub up : ℕ
      pub down : ℕ
      pub new : w'.new ≡ having_replicas w.new up
      pub old : w'.old ≡ having_replicas w.old down
      pub grows : n ≤ up
      pub below : up ≤ target
      pub by_batch : up ≤ n + batch
      pub shrinks : down ≤ o
      pub by_unavailable : o ≤ down + unavailable
      pub gone : (w'.deleted ≡ false) ⊎ ((w'.deleted ≡ true) × D)

    start-IsTaken : IsTaken w
    start-IsTaken = record {
      up = n;
      down = o;
      new = ap (λ r. record w.new { replicas = r }) shows.up;
      old = ap (λ r. record w.old { replicas = r }) shows.down;
      grows = omega arith;
      below = shows.below;
      by_batch = omega arith;
      shrinks = omega arith;
      by_unavailable = omega arith;
      gone = inl shows.handed_over;
    }

    effect-IsTaken :
        (c : Call) (w' : World)
        → IsRound target batch unavailable n o w.new w.old D c
        → IsTaken w'
        → IsTaken (effect c w')
    effect-IsTaken (update_deployment u) w' (inl up) taken =
        rw (same_name u w'.new w.new up.wanted taken.up up.scaled taken.new) (record {
          up = up.wanted;
          down = taken.down;
          new = up.scaled;
          old = taken.old;
          grows = up.grows;
          below = up.below;
          by_batch = up.by_batch;
          shrinks = taken.shrinks;
          by_unavailable = taken.by_unavailable;
          gone = taken.gone;
        })
    effect-IsTaken (update_deployment u) w' (inr down) taken =
        let other : str_eq u.name w'.new.name ≡ false =
          ap2_str_eq (name_of u w.old down.wanted down.scaled)
            (name_of w'.new w.new taken.up taken.new) shows.other_name in
        rw (other, same_name u w'.old w.old down.wanted taken.down down.scaled taken.old)
          (record {
            up = taken.up;
            down = down.wanted;
            new = taken.new;
            old = down.scaled;
            grows = taken.grows;
            below = taken.below;
            by_batch = taken.by_batch;
            shrinks = down.shrinks;
            by_unavailable = down.by_unavailable;
            gone = taken.gone;
          })
    effect-IsTaken (delete_workload u) w' done taken = record {
      up = taken.up;
      down = taken.down;
      new = taken.new;
      old = taken.old;
      grows = taken.grows;
      below = taken.below;
      by_batch = taken.by_batch;
      shrinks = taken.shrinks;
      by_unavailable = taken.by_unavailable;
      gone = inr (refl, done);
    }
    effect-IsTaken _ w' quiet taken = taken

    pub landed-IsTaken :
        (api : Api) (h : List Call)
        → AllCalls (IsRound target batch unavailable n o w.new w.old D) h
        → IsTaken (landed api h w)
    unfolding landed
    landed-IsTaken api [] calls = start-IsTaken
    landed-IsTaken api (c ∷ h) (call, calls) =
        let before = landed-IsTaken api h calls in
        unless_either (refusal api c h) (effect c (landed api h w)) (landed api h w)
          (effect-IsTaken c (landed api h w) call before) before
      where
        unless_either :
            (e : Option Error) (v v' : World) → IsTaken v → IsTaken v' → IsTaken (unless e v v')
        unless_either none v v' k k' = k
        unless_either (some e) v v' k k' = k'

    pub is_rollout : IsBounded → IsRollout target batch unavailable n o w.new w.old t
    is_rollout bounded = record {
      replica = bounded.replica;
      batch_of = bounded.batch_of;
      unavailable_of = bounded.unavailable_of;
      target_fits = bounded.target_fits;
      unavailable_fits = bounded.unavailable_fits;
      new_wanted = shows.up;
      old_wanted = shows.down;
      new_below = shows.below;
      old_fits = shows.down_fits;
    }

    -- what the world shows after the round
    pub taken-Shows :
        (w' : World) (taken : IsTaken w') → Shows w' (at taken.up taken.down w'.deleted)
    taken-Shows w' taken = record {
      up = ap (λ (d : Deployment). d.replicas) taken.new;
      down = ap (λ (d : Deployment). d.replicas) taken.old;
      handed_over = refl;
      ready = shows.ready;
      is_ready = ap (λ (d : Deployment). d.ready_replicas) taken.new ∙ shows.is_ready;
      ready_le = omega arith;
      below = taken.below;
      down_fits = omega arith;
      other_name =
          ap2_str_eq (name_of w'.old w.old taken.down taken.old)
            (name_of w'.new w.new taken.up taken.new) shows.other_name;
    }

    -- a deletion finds both ends of the rollout reached
    D_sound : IsBounded → D → (n ≡ target) × (o ≡ 0)
    D_sound bounded done =
        let all_up =
          up_sound w.new done.target shows.ready target
            (some_pos done.target (pos target) (sym done.wanted ∙ bounded.replica)) shows.is_ready
            done.up in
        (omega (arith, all_up), pos_injective o 0 (sym shows.down ∙ done.down.0))

    round_shift :
        (w' : World) (taken : IsTaken w')
        → Move target batch unavailable (at n o false) (at taken.up taken.down false)
    round_shift w' taken =
        shift taken.grows taken.below taken.by_batch taken.shrinks taken.by_unavailable

    round_hand_over :
        (w' : World) (taken : IsTaken w')
        → n ≡ target
        → o ≡ 0
        → Move target batch unavailable (at n o false) (at taken.up taken.down true)
    round_hand_over w' taken all_up all_down =
        let up : taken.up ≡ target = omega (arith, all_up) in
        let down : taken.down ≡ 0 = omega (arith, all_down) in
        rw (all_up, all_down, up, down) hand_over

    pub round-Move :
        (w' : World) (taken : IsTaken w')
        → IsBounded
        → Move target batch unavailable (at n o false) (at taken.up taken.down w'.deleted)
    round-Move w' taken bounded = elim taken.gone [
      | inl kept ↦ rw kept (round_shift w' taken)
      | inr (gone, done) ↦
          let (all_up, all_down) = D_sound bounded done in
          rw gone (round_hand_over w' taken all_up all_down)
    ]
