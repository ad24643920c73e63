-- ===== src/Tests/AnalyticsTests.antt =====
-- The figures of the example club.
use gameclub_backend.Prelude.{
  false, ◌&&◌, ◌+◌, ◌≡◌, ◌⊎◌, refl, some, [], ◌∷◌, List, length, Date, arith,
}
use gameclub_backend.Prelude.Int.{pos, ◌+ℤ◌}
use gameclub_backend.Common.Cache.{Key, get, lookup, del_by_prefix}
use gameclub_backend.Money.{from_minor, is_safe}
use gameclub_backend.Money.Double.{nearest_even, top_power}
use gameclub_backend.Debt.{get_total_outstanding, outstanding_sum}
use gameclub_backend.Debt.History.{new_row}
use gameclub_backend.Common.Listing.{select}
use gameclub_backend.Analytics.{
  AnalyticsRange, AnalyticsSummary, Share, sum_of, compute_summary, summarise, summary, deliver,
  ended_in, top_shares, group_by, add_share, order_shares, place_share,
}
use gameclub_backend.Analytics.Doubles.{
  number, occupancy_hundredths, quotient, scale, to_double, spacing, math_round,
}
use gameclub_backend.Analytics.Occupancy.{IsNearest, occupancy-IsNearest}
use gameclub_backend.Analytics.Shares.{Ranked, top_shares-Ranked}
use gameclub_backend.Analytics.Ended.{end_in-summary}
use gameclub_backend.Tests.Data.{busy, partly_paid, ended_running, hour_debt, after_hour}
use gameclub_backend.Tests.SessionTests.{end_hour}

abbrev iso : Date → Key
iso d = d ∷ []

abbrev day : AnalyticsRange
day = record { from = 0; to = 86400000 }

-- 57 of 800 computers are 7.125 percent, which the service shows as 7.12: the quotient of doubles
-- lies below 0.07125.
occupancy_below : occupancy_hundredths 57 800 ≡ 712
unfolding occupancy_hundredths quotient scale to_double spacing math_round nearest_even top_power
occupancy_below = refl

occupancy_above : occupancy_hundredths 1 160 ≡ 63
unfolding occupancy_hundredths quotient scale to_double spacing math_round nearest_even top_power
occupancy_above = refl

occupancy-IsNearest_example : IsNearest 57 800 (occupancy_hundredths 57 800)
occupancy-IsNearest_example = occupancy-IsNearest 57 800 (omega arith) (omega arith) (omega arith)

top_of_hour :
    top_shares (λ s. s.computer_id) (ended_running ∷ [])
    ≡ record { key = 11; revenue = pos 1000000 } ∷ []
unfolding top_shares group_by order_shares add_share place_share
top_of_hour = refl

top_shares-Ranked_example :
    (rest : List Share) × Ranked
      (λ s. s.computer_id)
      (ended_running ∷ [])
      (top_shares (λ s. s.computer_id) (ended_running ∷ []))
      rest
    × ((length (top_shares (λ s. s.computer_id) (ended_running ∷ [])) ≡ 5) ⊎ (rest ≡ []))
top_shares-Ranked_example = top_shares-Ranked (λ s. s.computer_id) (ended_running ∷ [])

abbrev before_hour : AnalyticsSummary
before_hour = summarise iso day (select (ended_in day) busy.sessions) busy (pos 0)

abbrev with_hour : AnalyticsSummary
with_hour = summarise iso day (select (ended_in day) after_hour.sessions) after_hour (pos 200000)

end_in-summary_example :
    (with_hour.sessions_count ≡ before_hour.sessions_count + 1)
    × (before_hour.revenue ≡ number (pos 0))
    × (with_hour.revenue ≡ number (pos 0 +ℤ pos 1000000))
    × ((is_safe (pos 0) && is_safe (pos 0 +ℤ pos 1000000) ≡ false)
        ⊎ (with_hour.revenue ≡ before_hour.revenue +ℤ pos 1000000))
unfolding compute_summary get_total_outstanding outstanding_sum from_minor summary get lookup
    deliver ended_in select del_by_prefix ◌+ℤ◌ sum_of
end_in-summary_example =
    end_in-summary iso day 3600001 3600002 31 partly_paid 7 3600000 (new_row 41 3600000) 3600000
      3600000 busy ended_running (some hour_debt) after_hour [] before_hour with_hour refl end_hour
      refl refl
