-- ===== src/Pricing/Charges.antt =====
-- `quote` and `finalize` of src/modules/sessions/session-pricing.service.ts.
use gameclub_backend.Prelude.{ℕ, ◌*◌, ◌≤◌, ◌≡◌, refl, true, arith, Date}
use gameclub_backend.Prelude.Int.{ℤ, pos, pos_part}
use gameclub_backend.Common.Errors.{ok}
use gameclub_backend.Money.{is_safe}
use gameclub_backend.Money.Charge.{IsHalfUp, exact_limit, for_duration-IsHalfUp, for_duration_mono}
use gameclub_backend.Money.Text.{from_minor-safe}
use gameclub_backend.Entities.Club.{
  Session, SessionType, fixed_duration, fixed_end_time, open_session,
}
use gameclub_backend.Pricing.{accrued, quote, finalize, diff_seconds}
use gameclub_backend.Pricing.Rounding.{diff_seconds_mono}

-- The final charge of a fixed session is its locked amount, whenever it ends; that of an open one
-- is the rate times the seconds played by 3600, rounded half up.
abbrev pub IsFinal : SessionType → Session → Date → ℤ → Type 0
IsFinal open_session s ended_at c =
    (n : ℕ) × (c ≡ pos n)
    × IsHalfUp (pos_part s.rate_per_hour * pos_part (diff_seconds s.started_at ended_at)) n
IsFinal _ s ended_at c = c ≡ s.amount_due

accrued-IsFinal :
    (t : SessionType) (s : Session) (rate ended_at : ℕ)
    → s.rate_per_hour ≡ pos rate
    → rate * pos_part (diff_seconds s.started_at ended_at) ≤ exact_limit
    → is_safe s.amount_due ≡ true
    → (c : ℤ) × (accrued t s ended_at ≡ ok (record { minor = c })) × IsFinal t s ended_at c
accrued-IsFinal open_session s rate ended_at r lim safe =
    let (c, charged, half_up) =
      for_duration-IsHalfUp rate (pos_part (diff_seconds s.started_at ended_at)) lim in
    (pos c, rw r charged, (c, refl, rw r half_up))
accrued-IsFinal fixed_duration s rate ended_at r lim safe =
    (s.amount_due, from_minor-safe s.amount_due safe, refl)
accrued-IsFinal fixed_end_time s rate ended_at r lim safe =
    (s.amount_due, from_minor-safe s.amount_due safe, refl)

-- With a natural rate, a product of rate and seconds up to 2 ^ 53 - 1800 and a locked amount in the
-- safe range, `finalize` succeeds: a fixed session costs its locked amount, whenever it ends, and an
-- open one the rate times the seconds played by 3600, rounded half up.
pub finalize-IsFinal :
    (s : Session) (rate ended_at : ℕ)
    → s.rate_per_hour ≡ pos rate
    → rate * pos_part (diff_seconds s.started_at ended_at) ≤ exact_limit
    → is_safe s.amount_due ≡ true
    → (c : ℤ) × (finalize s ended_at ≡ ok (record { minor = c })) × IsFinal s.type s ended_at c
unfolding finalize
finalize-IsFinal s rate ended_at r lim safe = accrued-IsFinal s.type s rate ended_at r lim safe

quote_as :
    (t : SessionType) (s : Session) (rate now later c d : ℕ)
    → s.rate_per_hour ≡ pos rate
    → now ≤ later
    → rate * pos_part (diff_seconds s.started_at later) ≤ exact_limit
    → accrued t s now ≡ ok (record { minor = pos c })
    → accrued t s later ≡ ok (record { minor = pos d })
    → c ≤ d
quote_as open_session s rate now later c d r h lim p q =
    for_duration_mono rate (pos_part (diff_seconds s.started_at now))
      (pos_part (diff_seconds s.started_at later)) c d (diff_seconds_mono s.started_at now later h)
      lim (rw r at p) (rw r at q)
quote_as fixed_duration s rate now later c d r h lim p q = ground arith
quote_as fixed_end_time s rate now later c d r h lim p q = ground arith

-- The live quote of a session never falls while time passes.
pub quote_mono :
    (s : Session) (rate now later c d : ℕ)
    → s.rate_per_hour ≡ pos rate
    → now ≤ later
    → rate * pos_part (diff_seconds s.started_at later) ≤ exact_limit
    → quote s now ≡ ok (record { minor = pos c })
    → quote s later ≡ ok (record { minor = pos d })
    → c ≤ d
unfolding quote
quote_mono s rate now later c d r h lim p q = quote_as s.type s rate now later c d r h lim p q
