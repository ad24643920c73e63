-- ===== src/Pricing.antt =====
-- The pricing engine: src/modules/sessions/session-pricing.service.ts. The request's durations are
-- integers (the DTOs check that); a date plus a duration stays in the range of `Date`.
pub mod Rounding
pub mod Plans
pub mod Charges
use gameclub_backend.Prelude.{
  ℕ, ◌+◌, ◌-◌, ◌*◌, ◌/◌, Option, none, some, List, [], ◌∷◌, Bool, false, leb, if◌then◌else◌, Date,
}
use gameclub_backend.Prelude.Int.{ℤ, pos, negsuc, neg, pos_part, leb_ℤ}
use gameclub_backend.Common.Errors.{Part, Result, ok, throw, business_rule, lit, ◌>>=◌}
use gameclub_backend.Money.{Money, integer, from_minor, for_duration, zero_money}
use gameclub_backend.Entities.Club.{
  Session, SessionType, fixed_duration, fixed_end_time, open_session,
}

pub record PricingPlan : Type 0 where
  pub planned_end_at : Option Date
  pub planned_amount : Money

pub record PlanParams : Type 0 where
  pub duration_minutes : Option ℤ
  pub planned_end_at : Option Date

pub record ExtendParams : Type 0 where
  pub add_minutes : Option ℤ
  pub new_end_at : Option Date

abbrev pub seconds_per_minute : ℕ
seconds_per_minute = 60

-- `Math.round((to - from) / 1000)`: the nearest whole second, halves towards the later one.
unfoldable pub diff_seconds : Date → Date → ℤ
diff_seconds from to =
    if leb from to then pos ((to - from + 500) / 1000) else neg ((from - to + 499) / 1000)

-- `Math.max(seconds, 0)`.
abbrev pub max_zero : ℤ → ℤ
max_zero s = pos (pos_part s)

-- The case FIXED_DURATION of `plan`, once `durationMinutes` is there.
abbrev plan_minutes : ℤ → Date → ℕ → Result PricingPlan
plan_minutes rate started_at minutes =
    let seconds = minutes * seconds_per_minute in
    for_duration (integer rate) (integer (pos seconds)) >>= λ amount.
    ok (record { planned_end_at = some (started_at + seconds * 1000); planned_amount = amount })

-- The case FIXED_END_TIME of `plan`, once `plannedEndAt` is there.
abbrev plan_until : ℤ → Date → Date → Result PricingPlan
plan_until rate started_at end =
    let seconds = diff_seconds started_at end in
    if leb_ℤ seconds (pos 0)
    then throw (
        business_rule "INVALID_END_TIME" (lit "plannedEndAt must be after the start time" ∷ [])
          none)
    else (for_duration (integer rate) (integer seconds) >>= λ amount.
        ok (record { planned_end_at = some end; planned_amount = amount }))

abbrev invalid_duration : Result PricingPlan
invalid_duration = throw (
    business_rule "INVALID_DURATION" (lit "FIXED_DURATION requires a positive durationMinutes" ∷ [])
      none)

unfoldable pub plan : SessionType → ℤ → Date → PlanParams → Result PricingPlan
plan fixed_duration rate started_at params = elim params.duration_minutes [
  | none ↦ invalid_duration
  | some minutes ↦
      if leb_ℤ minutes (pos 0)
      then invalid_duration
      else plan_minutes rate started_at (pos_part minutes)
]
plan fixed_end_time rate started_at params = elim params.planned_end_at [
  | none ↦
      throw
        (business_rule "INVALID_END_TIME" (lit "FIXED_END_TIME requires plannedEndAt" ∷ []) none)
  | some end ↦ plan_until rate started_at end
]
plan open_session rate started_at params =
    ok (record { planned_end_at = none; planned_amount = zero_money })

-- The charge of an open session up to `now`, and the locked charge of a fixed one.
abbrev accrued : SessionType → Session → Date → Result Money
accrued open_session session now =
    for_duration (integer session.rate_per_hour)
      (integer (max_zero (diff_seconds session.started_at now)))
accrued _ session now = from_minor (integer session.amount_due)

unfoldable pub quote : Session → Date → Result Money
quote session now = accrued session.type session now

unfoldable pub finalize : Session → Date → Result Money
finalize session ended_at = accrued session.type session ended_at

abbrev invalid_extension : List Part → Result PricingPlan
invalid_extension m = throw (business_rule "INVALID_EXTENSION" m none)

-- The plan of a session that now ends at `end`.
abbrev plan_to : Session → Date → Result PricingPlan
plan_to session end =
    for_duration (integer session.rate_per_hour) (integer (diff_seconds session.started_at end))
    >>= λ amount. ok (record { planned_end_at = some end; planned_amount = amount })

-- `session.plannedEndAt ?? session.startedAt`.
abbrev pub extension_base : Session → Date
extension_base session = elim session.planned_end_at [ some end ↦ end | none ↦ session.started_at ]

-- `session.plannedEndAt && newEndAt <= session.plannedEndAt`.
abbrev not_later : Option Date → Date → Bool
not_later none new_end = false
not_later (some end) new_end = leb new_end end

abbrev extend_as : SessionType → Session → ExtendParams → Result PricingPlan
extend_as fixed_duration session params = elim params.add_minutes [
  | none ↦ invalid_extension (lit "FIXED_DURATION extension requires positive addMinutes" ∷ [])
  | some minutes ↦
      if leb_ℤ minutes (pos 0)
      then invalid_extension (lit "FIXED_DURATION extension requires positive addMinutes" ∷ [])
      else plan_to session (extension_base session + pos_part minutes * seconds_per_minute * 1000)
]
extend_as fixed_end_time session params = elim params.new_end_at [
  | none ↦ invalid_extension (lit "FIXED_END_TIME extension requires newEndAt" ∷ [])
  | some new_end ↦
      if not_later session.planned_end_at new_end
      then invalid_extension (lit "newEndAt must be later than the current planned end" ∷ [])
      else plan_to session new_end
]
extend_as open_session session params = throw (
    business_rule "CANNOT_EXTEND"
      (lit "OPEN_SESSION cannot be extended; simply end it when finished" ∷ []) none)

unfoldable pub extend : Session → ExtendParams → Result PricingPlan
extend session params = extend_as session.type session params
