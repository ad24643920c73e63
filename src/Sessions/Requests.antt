-- ===== src/Sessions/Requests.antt =====
-- Requests to start a session: the rules of src/modules/sessions/dto/start-session.dto.ts, and the
-- errors of the pricing engine for a request that passes them.
use native.Mathlib.Nat.{mul-le-mul_left}
use gameclub_backend.Prelude.{
  ℕ, ◌+◌, ◌-◌, ◌*◌, ◌/◌, ◌≤◌, ◌<◌, ◌≡◌, inl, inr, Option, none, some, Bool, true, false, ◌&&◌, ◌||◌,
  ◌==◌, codes, length, String, not, List, [], ◌∷◌, arith, leb, Uuid, Date, Bool-cases, Option-cases,
}
use gameclub_backend.Prelude.Int.{ℤ, pos, pos_part, leb_ℤ}
use gameclub_backend.Common.Errors.{Exception, throw, Result-cases}
use gameclub_backend.Common.Filter.{normalise}
use gameclub_backend.Money.{max_safe, integer, for_duration}
use gameclub_backend.Money.Charge.{for_duration-Accepts}
use gameclub_backend.Entities.Club.{
  room_entity, computer_entity, customer_entity, session_entity, SessionType, fixed_duration,
  fixed_end_time, open_session,
}
use gameclub_backend.Pricing
use gameclub_backend.Pricing.{PlanParams, diff_seconds}
use gameclub_backend.Sessions.{StartSessionDto}

-- The client is answered an error of its own: a status below 500.
abbrev pub IsClientError : Exception → Type 0
IsClientError e = (normalise e).status < 500

-- The seconds of a day, the longest time that a request may book.
abbrev pub day : ℕ
day = 86400

-- A rate that is not negative, and a charge for a day in the safe range.
abbrev pub IsAffordable : ℤ → Type 0
IsAffordable rate = (r : ℕ) × (rate ≡ pos r) × (r * day ≤ max_safe)

-- `@Min(1) @Max(24 * 60)` on the minutes, if they are given; an end within a day.
abbrev pub BooksDay : PlanParams → Date → Type 0
BooksDay params started_at =
    ((m : ℤ) → params.duration_minutes ≡ some m → leb_ℤ m (pos 1440) ≡ true)
    × ((end : Date) → params.planned_end_at ≡ some end → end ≤ started_at + 86400000)

charged :
    (r s : ℕ) (e : Exception)
    → r * day ≤ max_safe
    → s ≤ day
    → for_duration (integer (pos r)) (integer (pos s)) ≡ throw e
    → ⊥
charged r s e affordable short h =
    let grown : r * s ≤ r * day = mul-le-mul_left r short in
    let (m, made) = (for_duration-Accepts (integer (pos r)) (integer (pos s))).1 (omega arith) in
    ground arith

seconds_until :
    (from to : Date)
    → leb_ℤ (diff_seconds from to) (pos 0) ≡ false
    → to ≤ from + 86400000
    → (s : ℕ) × (diff_seconds from to ≡ pos s) × (s ≤ day)
unfolding diff_seconds
seconds_until from to later soon = elim (Bool-cases (leb from to)) [
  | inl ordered ↦ ((to - from + 500) / 1000, ground arith, omega arith)
  | inr reversed ↦ absurd (ground arith)
]

minutes_of : (m : ℤ) → leb_ℤ m (pos 1440) ≡ true → pos_part m * 60 ≤ day
minutes_of m h = ground arith

pub plan-throws :
    (type : SessionType) (r : ℕ) (started_at : Date) (params : PlanParams) (e : Exception)
    → r * day ≤ max_safe
    → BooksDay params started_at
    → Pricing.plan type (pos r) started_at params ≡ throw e
    → IsClientError e
unfolding Pricing.plan normalise
plan-throws fixed_duration r started_at params e affordable books h =
    elim (Option-cases params.duration_minutes) [
      | inl none_given ↦ ground arith
      | inr (m, given) ↦ elim (Bool-cases (leb_ℤ m (pos 0))) [
        | inl few ↦ ground arith
        | inr some_minutes ↦
            let short = minutes_of m (books.0 m given) in
            elim (Result-cases (for_duration (integer (pos r)) (integer (pos (pos_part m * 60))))) [
              | inl (a, made) ↦ absurd (ground arith)
              | inr (x, thrown) ↦ absurd (charged r (pos_part m * 60) x affordable short thrown)
            ]
      ]
    ]
plan-throws fixed_end_time r started_at params e affordable books h =
    elim (Option-cases params.planned_end_at) [
      | inl none_given ↦ ground arith
      | inr (end, given) ↦ elim (Bool-cases (leb_ℤ (diff_seconds started_at end) (pos 0))) [
        | inl early ↦ ground arith
        | inr later ↦
            let (s, is, short) = seconds_until started_at end later (books.1 end given) in
            elim (Result-cases (for_duration (integer (pos r)) (integer (pos s)))) [
              | inl (a, made) ↦ absurd (ground arith)
              | inr (x, thrown) ↦ absurd (charged r s x affordable short thrown)
            ]
      ]
    ]
plan-throws open_session r started_at params e affordable books h = absurd (ground arith)

abbrev pub params_of : StartSessionDto → PlanParams
params_of dto = record {
  duration_minutes = dto.duration_minutes;
  planned_end_at = dto.planned_end_at;
}

unfoldable pub member : Uuid → List Uuid → Bool
member id [] = false
member id (k ∷ ids) = k == id || member id ids

unfoldable pub all_different : List Uuid → Bool
unfolding member
all_different [] = true
all_different (id ∷ ids) = not (member id ids) && all_different ids

abbrev minutes_in_range : Option ℤ → Bool
minutes_in_range none = true
minutes_in_range (some m) = leb_ℤ (pos 1) m && leb_ℤ m (pos 1440)

abbrev short_notes : Option String → Bool
short_notes none = true
short_notes (some s) = leb (length (codes s)) 255

-- The rules of `StartSessionDto`, beyond the types of its fields.
unfoldable pub is_start : StartSessionDto → Bool
unfolding all_different
is_start dto =
    leb 1 (length dto.computer_ids)
    && all_different dto.computer_ids
    && minutes_in_range dto.duration_minutes
    && short_notes dto.notes

pub is_start-minutes :
    (dto : StartSessionDto) (m : ℤ)
    → is_start dto ≡ true
    → dto.duration_minutes ≡ some m
    → leb_ℤ m (pos 1440) ≡ true
unfolding is_start
is_start-minutes dto m valid given = ground arith
