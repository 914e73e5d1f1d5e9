-- ===== src/Autoscaler/Cron.antt =====
-- The cron triggers of a scaler (prepareKEDACronScalerTriggerSpec of
-- legacy/traits/autoscalertrait/controllers/keda.go). Of the results on an error only the error is
-- modelled, as the reason beside it is only recorded as an event.
pub mod Window
use kubevela_catalog.Base.{
  ℕ, ◌+◌, ◌-◌, ◌*◌, ◌%◌, String, List, [], ◌∷◌, Bool, true, false, ltb, str_eq, map, ◌<>◌, itoa,
  if◌then◌else◌,
}
use kubevela_catalog.Base.Int.{ℤ, pos, negsuc, ◌+ℤ◌, leb_ℤ, eq_ℤ}
use kubevela_catalog.Base.Dict.{Dict}
use kubevela_catalog.Base.Exec.{Result, ok, err}
use kubevela_catalog.K8s.{Error, new_error}
use kubevela_catalog.Autoscaler.{
  Trigger, TargetWorkload, Scaler, CronTypeCondition, ScaleTrigger, Duration, Api,
}

-- strconv.Itoa, and "%d"
unfoldable pub itoa_ℤ : ℤ → String
itoa_ℤ (pos n) = itoa n
itoa_ℤ (negsuc n) = "-" <> itoa (n + 1)

-- Go's remainder, which has the sign of the dividend
unfoldable pub rem60 : ℤ → ℤ
rem60 (pos n) = pos (n % 60)
rem60 (negsuc n) = if eq_ℤ (pos ((n + 1) % 60)) (pos 0) then pos 0 else negsuc ((n + 1) % 60 - 1)

unfoldable pub rem24 : ℤ → ℤ
rem24 (pos n) = pos (n % 24)
rem24 (negsuc n) = if eq_ℤ (pos ((n + 1) % 24)) (pos 0) then pos 0 else negsuc ((n + 1) % 24 - 1)

-- the times between which a trigger holds, and the days by which the end is later
pub record Times : Type 0 where
  pub start_hour : ℕ
  pub start_minute : ℕ
  pub end_hour : ℤ
  pub end_minute : ℤ
  pub one_more_day : ℕ

unfoldable pub end_of_day : ℕ → ℕ → ℤ → ℤ → Times
end_of_day start_hour start_minute end_hour end_minute =
    if leb_ℤ (pos 24) end_hour
    then record {
      start_hour = start_hour;
      start_minute = start_minute;
      end_hour = rem24 end_hour;
      end_minute = end_minute;
      one_more_day = 1;
    }
    else record {
      start_hour = start_hour;
      start_minute = start_minute;
      end_hour = end_hour;
      end_minute = end_minute;
      one_more_day = 0;
    }

unfoldable pub cron_times : ℕ → ℕ → Duration → Times
unfolding end_of_day rem60 ◌+ℤ◌
cron_times start_hour start_minute duration =
    let end_minute : ℤ = pos start_minute +ℤ rem60 duration.minutes in
    let end_hour : ℤ = duration.hours +ℤ pos start_hour in
    if leb_ℤ (pos 60) end_minute
    then end_of_day start_hour start_minute (end_hour +ℤ pos 1) (rem60 end_minute)
    else end_of_day start_hour start_minute end_hour end_minute

abbrev pub weekdays : List (String × ℕ)
weekdays =
    ("Sunday", 0)
    ∷ ("Monday", 1)
    ∷ ("Tuesday", 2)
    ∷ ("Wednesday", 3)
    ∷ ("Thursday", 4)
    ∷ ("Friday", 5)
    ∷ ("Saturday", 6)
    ∷ []

-- an element and the rest, or the first error
unfoldable pub both : {A : Type 0} → Result Error A → Result Error (List A) → Result Error (List A)
both (err e) rest = err e
both (ok x) (err e) = err e
both (ok x) (ok xs) = ok (x ∷ xs)

module _ (api : Api) where
  -- the loop over the seven days
  unfoldable pub find_day : String → List (String × ℕ) → Result Error (String × ℕ)
  find_day d [] = err (new_error ("wrong format " <> d))
  find_day d ((name, n) ∷ names) = if api.equal_fold name d then ok (d, n) else find_day d names

  -- the trimmed days with their numbers
  unfoldable pub find_days : List String → Result Error (List (String × ℕ))
  find_days [] = ok []
  find_days (d ∷ ds) = both (find_day (api.trim_space d) weekdays) (find_days ds)

  unfoldable pub cron_trigger : Trigger → String → Times → ℤ → String × ℕ → ScaleTrigger
  cron_trigger t timezone times replicas (day, n) = record {
    trigger_type = t.trigger_type;
    name = t.name <> "-" <> day;
    metadata =
        ("timezone", timezone)
        ∷ ("start", itoa times.start_minute <> " " <> itoa times.start_hour <> " * * " <> itoa n)
        ∷ (
          "end",
          itoa_ℤ times.end_minute
              <> " "
              <> itoa_ℤ times.end_hour
              <> " * * "
              <> itoa ((n + times.one_more_day) % 7),
        )
        ∷ ("desiredReplicas", itoa_ℤ replicas)
        ∷ [];
  }

  unfoldable pub triggers_on :
      Trigger
      → String
      → Times
      → ℤ
      → Result Error (List (String × ℕ))
      → Result Error (List ScaleTrigger)
  triggers_on t timezone times replicas (err e) = err e
  triggers_on t timezone times replicas (ok days) =
      ok (map (cron_trigger t timezone times replicas) days)

  unfoldable pub with_replicas :
      Trigger → CronTypeCondition → Times → Result Error ℤ → Result Error (List ScaleTrigger)
  unfolding triggers_on
  with_replicas t c times (err e) = err e
  with_replicas t c times (ok replicas) =
      if eq_ℤ replicas (pos 0)
      then err (new_error "spec.triggers.condition.replicas: Required value")
      else triggers_on t c.timezone times replicas (find_days (api.split c.days))

  unfoldable pub with_times :
      Trigger
      → CronTypeCondition
      → Result Error (ℕ × ℕ)
      → Result Error Duration
      → Result Error (List ScaleTrigger)
  unfolding with_replicas
  with_times t c (err e) duration = err e
  with_times t c (ok (hour, minute)) (err e) = err e
  with_times t c (ok (hour, minute)) (ok duration) =
      with_replicas t c (cron_times hour minute duration) (api.atoi c.replicas)

  unfoldable pub with_condition :
      Trigger → Result Error CronTypeCondition → Result Error (List ScaleTrigger)
  unfolding with_times
  with_condition t (err e) = err e
  with_condition t (ok c) =
      if str_eq c.start_at ""
      then err (new_error "spec.triggers.condition.startAt: Required value")
      else if str_eq c.duration ""
      then err (new_error "spec.triggers.condition.duration: Required value")
      else with_times t c (api.parse_clock c.start_at) (api.parse_duration c.duration)

  unfoldable pub prepare_keda_cron_scaler_trigger_spec :
      Scaler → Trigger → Result Error (List ScaleTrigger)
  unfolding with_condition
  prepare_keda_cron_scaler_trigger_spec scaler t =
      if str_eq scaler.spec.target_workload.name ""
      then err (new_error "Spec.targetWorkload is not set")
      else with_condition t (api.decode_condition t.condition)
