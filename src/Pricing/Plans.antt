-- ===== src/Pricing/Plans.antt =====
-- `plan` and `extend` of src/modules/sessions/session-pricing.service.ts.
use mathlib.Core.Option.{some-injective}
use gameclub_backend.Prelude.{
  ℕ, ◌+◌, ◌*◌, ◌≤◌, ◌<◌, ◌≡◌, ◌↔◌, refl, sym, ◌∙◌, none, some, arith, Option-cases, inl, inr, Date,
}
use gameclub_backend.Prelude.Int.{ℤ, pos, negsuc, pos_part}
use gameclub_backend.Common.Errors.{ok}
use gameclub_backend.Money.{integer, for_duration, max_safe}
use gameclub_backend.Money.Charge.{
  IsHalfUp, exact_limit, for_duration-IsHalfUp, for_duration-Accepts, for_duration_safe,
  for_duration_mono,
}
use gameclub_backend.Entities.Club.{
  Session, SessionType, fixed_duration, fixed_end_time, open_session,
}
use gameclub_backend.Pricing.{
  PricingPlan, PlanParams, ExtendParams, plan, extend, diff_seconds, extension_base, extend_as,
  plan_to,
}
use gameclub_backend.Pricing.Rounding.{
  diff_seconds-add, diff_seconds_pos, diff_seconds_mono, diff_seconds_later,
}

abbrev pub for_minutes : ℤ → PlanParams
for_minutes minutes = record { duration_minutes = some minutes; planned_end_at = none }

abbrev pub until : Date → PlanParams
until end = record { duration_minutes = none; planned_end_at = some end }

-- A positive number of minutes and the end time that it leads to give the same plan, errors of the
-- charge included.
pub plan_minutes-eq-plan_end :
    (rate : ℤ) (started_at minutes : ℕ)
    → 0 < minutes
    → plan fixed_duration rate started_at (for_minutes (pos minutes))
      ≡ plan fixed_end_time rate started_at (until (started_at + minutes * 60 * 1000))
unfolding plan
plan_minutes-eq-plan_end rate started_at minutes h =
    rw (diff_seconds-add started_at (minutes * 60)) (ground arith)

-- A fixed duration of a positive number of minutes ends that many minutes after the start, and is
-- charged the rate times the seconds by 3600, rounded half up (as long as that product is at most
-- 2 ^ 53 - 1800).
pub plan_minutes-IsHalfUp :
    (rate started_at minutes : ℕ)
    → 0 < minutes
    → rate * (minutes * 60) ≤ exact_limit
    → (c : ℕ) × (plan fixed_duration (pos rate) started_at (for_minutes (pos minutes))
        ≡ ok (record {
          planned_end_at = some (started_at + minutes * 60 * 1000);
          planned_amount = record { minor = pos c };
        }))
      × IsHalfUp (rate * (minutes * 60)) c
unfolding plan
plan_minutes-IsHalfUp rate started_at minutes h lim =
    let (c, charged, half_up) = for_duration-IsHalfUp rate (minutes * 60) lim in
    (c, ground arith, half_up)

plan_end_needs :
    (rate started_at end : ℕ) (d : ℤ)
    → diff_seconds started_at end ≡ d
    → (p : PricingPlan) → plan fixed_end_time (pos rate) started_at (until end) ≡ ok p
    → (started_at + 500 ≤ end) × (rate * pos_part (diff_seconds started_at end) ≤ max_safe)
unfolding plan
plan_end_needs rate started_at end (pos n) e p h =
    let late = (diff_seconds_pos started_at end).0 in
    let accepted = for_duration_safe rate n p.planned_amount in ground arith
plan_end_needs rate started_at end (negsuc n) e p h =
    ground (arith, diff_seconds_pos started_at end)

plan_end_ok :
    (rate started_at end : ℕ) (d : ℤ)
    → diff_seconds started_at end ≡ d
    → started_at + 500 ≤ end
    → rate * pos_part (diff_seconds started_at end) ≤ max_safe
    → (p : PricingPlan) × (plan fixed_end_time (pos rate) started_at (until end) ≡ ok p)
unfolding plan
plan_end_ok rate started_at end (pos n) e late h =
    let seconds_pos = (diff_seconds_pos started_at end).1 late in
    let within : rate * n ≤ max_safe = ground arith in
    let (m, charged) = (for_duration-Accepts (integer (pos rate)) (integer (pos n))).1 within in
    (record { planned_end_at = some end; planned_amount = m }, ground arith)
plan_end_ok rate started_at end (negsuc n) e late h =
    absurd (ground (arith, (diff_seconds_pos started_at end).1 late))

-- An end time is accepted exactly if it is at least half a second after the start and the charge
-- of the seconds between does not leave the safe integers.
pub plan_end-accepted :
    (rate started_at end : ℕ)
    → ((p : PricingPlan) × (plan fixed_end_time (pos rate) started_at (until end) ≡ ok p))
      ↔ ((started_at + 500 ≤ end) × (rate * pos_part (diff_seconds started_at end) ≤ max_safe))
plan_end-accepted rate started_at end = (
  λ r. plan_end_needs rate started_at end (diff_seconds started_at end) refl r.0 r.1,
  λ h. plan_end_ok rate started_at end (diff_seconds started_at end) refl h.0 h.1,
)

ends_at :
    (start minutes more : ℕ)
    → start + minutes * 60 * 1000 + more * 60 * 1000 ≡ start + (minutes + more) * 60 * 1000
ends_at start minutes more = omega arith

-- Extending a session of a fixed duration by some minutes gives the plan of one session of the
-- whole duration: same end, same charge, same error.
pub extend-eq-plan :
    (s : Session) (minutes more : ℕ)
    → s.type ≡ fixed_duration
    → s.planned_end_at ≡ some (s.started_at + minutes * 60 * 1000)
    → 0 < more
    → extend s (record { add_minutes = some (pos more); new_end_at = none })
      ≡ plan fixed_duration s.rate_per_hour s.started_at (for_minutes (pos (minutes + more)))
unfolding extend plan
extend-eq-plan s minutes more fixed planned h =
    rw (fixed, extend_as)
      (rw (planned, extension_base)
        (rw
          (ends_at s.started_at minutes more, diff_seconds-add s.started_at ((minutes + more) * 60))
          (ground arith)))

plan_to-end :
    (s : Session) (end : Date) (p : PricingPlan)
    → plan_to s end ≡ ok p
    → p.planned_end_at ≡ some end
plan_to-end s end p h = ground arith

later_as :
    (t : SessionType) (s : Session) (params : ExtendParams) (p : PricingPlan) (old : Date)
    → s.planned_end_at ≡ some old
    → extend_as t s params ≡ ok p
    → (new : Date) × (p.planned_end_at ≡ some new) × (old < new)
later_as fixed_duration s params p old planned h = elim (Option-cases params.add_minutes) [
  | inl e ↦ absurd (ground arith)
  | inr (m, e) ↦ (old + pos_part m * 60 * 1000, ground arith, ground arith)
]
later_as fixed_end_time s params p old planned h = elim (Option-cases params.new_end_at) [
  | inl e ↦ absurd (ground arith)
  | inr (new, e) ↦ (new, ground arith, ground arith)
]
later_as open_session s params p old planned h = absurd (cc)

-- A successful extension of a session with a planned end moves that end later.
pub extend-later :
    (s : Session) (params : ExtendParams) (p : PricingPlan) (old : Date)
    → s.planned_end_at ≡ some old
    → extend s params ≡ ok p
    → (new : Date) × (p.planned_end_at ≡ some new) × (old < new)
unfolding extend
extend-later s params p old planned h = later_as s.type s params p old planned h

charged_as :
    (t : SessionType) (s : Session) (params : ExtendParams) (p : PricingPlan) (new : Date)
    → extend_as t s params ≡ ok p
    → p.planned_end_at ≡ some new
    → for_duration (integer s.rate_per_hour) (integer (diff_seconds s.started_at new))
      ≡ ok p.planned_amount
charged_as fixed_duration s params p new h e = elim (Option-cases params.add_minutes) [
  | inl missing ↦ absurd (ground arith)
  | inr (m, given) ↦ ground arith
]
charged_as fixed_end_time s params p new h e = elim (Option-cases params.new_end_at) [
  | inl missing ↦ absurd (ground arith)
  | inr (end, given) ↦ ground arith
]
charged_as open_session s params p new h e = absurd (cc)

-- An extended session is charged for the time from its start to the new end.
extend-charged :
    (s : Session) (params : ExtendParams) (p : PricingPlan) (new : Date)
    → extend s params ≡ ok p
    → p.planned_end_at ≡ some new
    → for_duration (integer s.rate_per_hour) (integer (diff_seconds s.started_at new))
      ≡ ok p.planned_amount
unfolding extend
extend-charged s params p new h e = charged_as s.type s params p new h e

-- A successful extension never lowers the locked charge: it is at least the charge of the time up
-- to the old end (at products of rate and seconds up to 2 ^ 53 - 1800).
pub extend-charge_mono :
    (s : Session) (params : ExtendParams) (p : PricingPlan) (rate old new a b : ℕ)
    → s.rate_per_hour ≡ pos rate
    → s.started_at ≤ old
    → s.planned_end_at ≡ some old
    → for_duration (integer (pos rate)) (integer (diff_seconds s.started_at old))
      ≡ ok (record { minor = pos a })
    → extend s params ≡ ok p
    → p.planned_end_at ≡ some new
    → p.planned_amount ≡ record { minor = pos b }
    → rate * pos_part (diff_seconds s.started_at new) ≤ exact_limit
    → a ≤ b
extend-charge_mono s params p rate old new a b r started planned first ext moved amount lim =
    let (new', ends, later) = extend-later s params p old planned ext in
    let further : old < new = ground (arith, some-injective (sym moved ∙ ends)) in
    let charged = rw (r, amount) at (extend-charged s params p new ext moved) in
    for_duration_mono rate (pos_part (diff_seconds s.started_at old))
      (pos_part (diff_seconds s.started_at new)) a b
      (diff_seconds_mono s.started_at old new (omega arith)) lim
      (rw (diff_seconds_later s.started_at old started) at first)
      (rw (diff_seconds_later s.started_at new (omega arith)) at charged)
