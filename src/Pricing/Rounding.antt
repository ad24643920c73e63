-- ===== src/Pricing/Rounding.antt =====
-- `diffSeconds` of src/modules/sessions/session-pricing.service.ts.
use gameclub_backend.Prelude.{ℕ, ◌+◌, ◌*◌, ◌≤◌, ◌<◌, ◌≡◌, ◌↔◌, arith, Date}
use gameclub_backend.Prelude.Int.{pos, pos_part, neg_part, ◌<ℤ◌}
use gameclub_backend.Pricing.{diff_seconds}

-- A thousand times the result is at most half a second more than the signed milliseconds between
-- the dates, and less than half a second fewer than them or exactly half a second more.
pub diff_seconds-nearest :
    (from to : Date)
    → (1000 * pos_part (diff_seconds from to) + from
        ≤ 1000 * neg_part (diff_seconds from to) + to + 500)
      × (1000 * neg_part (diff_seconds from to) + to
          < 1000 * pos_part (diff_seconds from to) + from + 500)
unfolding diff_seconds
diff_seconds-nearest from to = (ground arith, ground arith)

-- There is a positive number of seconds to a date exactly if it is at least half a second later.
pub diff_seconds_pos : (from to : Date) → (pos 0 <ℤ diff_seconds from to) ↔ (from + 500 ≤ to)
unfolding diff_seconds
diff_seconds_pos from to = (λ h. ground arith, λ h. ground arith)

pub diff_seconds-add : (from seconds : ℕ) → diff_seconds from (from + seconds * 1000) ≡ pos seconds
unfolding diff_seconds
diff_seconds-add from seconds = ground arith

pub diff_seconds_mono :
    (from to later : Date)
    → to ≤ later
    → pos_part (diff_seconds from to) ≤ pos_part (diff_seconds from later)
unfolding diff_seconds
diff_seconds_mono from to later h = ground arith

pub diff_seconds_later :
    (from to : Date) → from ≤ to → diff_seconds from to ≡ pos (pos_part (diff_seconds from to))
unfolding diff_seconds
diff_seconds_later from to h = ground arith
