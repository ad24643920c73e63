-- ===== src/Analytics.antt =====
-- src/modules/analytics/analytics.service.ts: the figures of a range of dates, computed from the
-- tables, and their cache, which events drop. The queries are those of the service, read as lists.
-- `Number` rounds their sums of money; the seconds played are rounded to a whole number from the exact
-- sum, as they are while it is below 2 ^ 52. PostgreSQL lists equal revenues in any
-- order; here a group that shows up earlier in the table comes first.
pub mod Doubles
pub mod Rounding
pub mod Shares
pub mod Fresh
pub mod Ended
pub mod Occupancy
use gameclub_backend.Prelude.{
  ℕ, zero, suc, ◌+◌, ◌-◌, ◌*◌, Option, none, some, Bool, true, false, not, ◌&&◌, ◌||◌, List, [],
  ◌∷◌, ◌++◌, map, String, length, take, ltb, leb, ◌==◌, if◌then◌else◌, Uuid, Date, find_one, codes,
}
use gameclub_backend.Prelude.Int.{ℤ, pos, sub_ℕ, ◌+ℤ◌, ltb_ℤ}
use gameclub_backend.Common.Errors.{Result, ok, throw}
use gameclub_backend.Common.Cache.{Key, CacheEntry, get, set_for, del_by_prefix}
use gameclub_backend.Entities.Club.{
  Session, SessionStatus, is_active_status, Computer, computer_entity,
}
use gameclub_backend.Events.{
  DomainEvent, session_ended, debt_created, debt_updated, analytics_updated, Envelope, of_analytics,
  build_event,
}
use gameclub_backend.Store.{Db}
use gameclub_backend.Debt.{get_total_outstanding}
use gameclub_backend.Common.Listing.{select}
use gameclub_backend.Sessions.Listing.{same_status, not_deleted, is_some_key}
use Doubles.{number, round_quotient, occupancy_hundredths}

pub record AnalyticsRange : Type 0 where
  pub from : Date
  pub to : Date

pub record AnalyticsQueryDto : Type 0 where
  pub from : Option Date
  pub to : Option Date

-- `resolveRange`, at the time `now`: the last 30 days by default.
unfoldable pub resolve_range : AnalyticsQueryDto → Date → AnalyticsRange
resolve_range q now =
    let to : Date = elim q.to [ none ↦ now | some t ↦ t ] in
    record { from = elim q.from [ none ↦ to - 2592000000 | some f ↦ f ]; to = to }

-- A group of sessions with its revenue.
pub record Share : Type 0 where
  pub key : Uuid
  pub revenue : ℤ

pub record TopComputer : Type 0 where
  pub computer_id : Uuid
  pub label : Option String
  pub revenue : ℤ

-- The occupancy rate is in hundredths of a percent.
pub record AnalyticsSummary : Type 0 where
  pub range : Key × Key
  pub revenue : ℤ
  pub outstanding_debt : ℤ
  pub play_seconds : ℤ
  pub average_session_seconds : ℤ
  pub average_revenue_per_session : ℤ
  pub sessions_count : ℕ
  pub unique_customers : ℕ
  pub active_sessions : ℕ
  pub occupancy_rate : ℕ
  pub top_computers : List TopComputer
  pub top_rooms : List Share

-- `BETWEEN` includes both ends; a date that is null matches nothing.
abbrev pub between : AnalyticsRange → Option Date → Bool
between r none = false
between r (some at) = leb r.from at && leb at r.to

-- The rows of `base()`.
unfoldable pub ended_in : AnalyticsRange → Session → Bool
ended_in r s = not_deleted s && same_status s.status SessionStatus.ended && between r s.ended_at

-- `SUM` of a column, and `COUNT(DISTINCT s.customer_id)`.
unfoldable pub sum_of : (Session → ℤ) → List Session → ℤ
sum_of column [] = pos 0
sum_of column (s ∷ rows) = column s +ℤ sum_of column rows

abbrev pub played_ms : Session → ℤ
played_ms s = elim s.ended_at [ none ↦ pos 0 | some at ↦ sub_ℕ at s.started_at ]

unfoldable pub has_customer : Uuid → List Session → Bool
has_customer k [] = false
has_customer k (s ∷ rows) = is_some_key s.customer_id k || has_customer k rows

abbrev pub new_customer : Option Uuid → List Session → ℕ
new_customer none rows = 0
new_customer (some k) rows = if has_customer k rows then 0 else 1

unfoldable pub distinct_customers : List Session → ℕ
unfolding has_customer
distinct_customers [] = 0
distinct_customers (s ∷ rows) = new_customer s.customer_id rows + distinct_customers rows

-- `GROUP BY` a key with the sum of what is paid.
unfoldable pub add_share : Uuid → ℤ → List Share → List Share
add_share k v [] = record { key = k; revenue = v } ∷ []
add_share k v (g ∷ groups) =
    if g.key == k then record g { revenue = v +ℤ g.revenue } ∷ groups else g ∷ add_share k v groups

unfoldable pub group_by : (Session → Uuid) → List Session → List Share
unfolding add_share
group_by key [] = []
group_by key (s ∷ rows) = add_share (key s) s.amount_paid (group_by key rows)

-- `ORDER BY revenue DESC`.
unfoldable pub place_share : Share → List Share → List Share
place_share g [] = g ∷ []
place_share g (h ∷ groups) =
    if ltb_ℤ g.revenue h.revenue then h ∷ place_share g groups else g ∷ h ∷ groups

unfoldable pub order_shares : List Share → List Share
unfolding place_share
order_shares [] = []
order_shares (g ∷ groups) = place_share g (order_shares groups)

unfoldable pub top_shares : (Session → Uuid) → List Session → List Share
unfolding group_by order_shares
top_shares key rows = take 5 (order_shares (group_by key rows))

-- The label comes from the joined row of the computer.
unfoldable pub labelled : List Computer → Share → TopComputer
labelled computers g = record {
  computer_id = g.key;
  label = elim (find_one g.key computers) [ none ↦ none | some c ↦ some c.label ];
  revenue = number g.revenue;
}

unfoldable pub numbered : Share → Share
numbered g = record { key = g.key; revenue = number g.revenue }

-- `sessions.count({ where: { status: ACTIVE } })` and `computers.count({ where: { isActive: true } })`.
unfoldable pub count_active : List Session → ℕ
count_active rows = length (select (λ s. not_deleted s && is_active_status s.status) rows)

unfoldable pub count_computers : List Computer → ℕ
count_computers [] = 0
count_computers (c ∷ rows) =
    (elim c.base.deleted_at [ none ↦ if c.is_active then 1 else 0 | some _ ↦ 0 ])
    + count_computers rows

abbrev pub average : ℤ → ℕ → ℤ
average sum count = if ltb 0 count then round_quotient sum count else pos 0

abbrev pub occupancy : ℕ → ℕ → ℕ
occupancy active total = if ltb 0 total then occupancy_hundredths active total else 0

-- `computeSummary` on the rows of the range; `iso` is `toISOString`.
unfoldable pub summarise : (Date → Key) → AnalyticsRange → List Session → Db → ℤ → AnalyticsSummary
summarise iso r rows db owed =
    let revenue = number (sum_of (λ s. s.amount_paid) rows) in
    let played = round_quotient (sum_of played_ms rows) 1000 in
    record {
      range = (iso r.from, iso r.to);
      revenue = revenue;
      outstanding_debt = owed;
      play_seconds = played;
      average_session_seconds = average played (length rows);
      average_revenue_per_session = average revenue (length rows);
      sessions_count = length rows;
      unique_customers = distinct_customers rows;
      active_sessions = count_active db.sessions;
      occupancy_rate = occupancy (count_active db.sessions) (count_computers db.computers);
      top_computers = map (labelled db.computers) (top_shares (λ s. s.computer_id) rows);
      top_rooms = map numbered (top_shares (λ s. s.room_id) rows);
    }

unfoldable pub compute_summary : (Date → Key) → AnalyticsRange → Db → Result AnalyticsSummary
unfolding summarise
compute_summary iso r db = elim (get_total_outstanding db) [
  | throw e ↦ throw e
  | ok owed ↦ ok (summarise iso r (select (ended_in r) db.sessions) db owed.minor)
]

abbrev pub Summaries : Type 0
Summaries = List (Key × CacheEntry AnalyticsSummary)

-- `analytics:summary:`.
abbrev pub cache_prefix : Key
cache_prefix = codes "analytics:summary:"

abbrev pub cache_ttl_seconds : ℕ
cache_ttl_seconds = 30

abbrev pub cache_key : (Date → Key) → AnalyticsRange → Key
cache_key iso r = cache_prefix ++ (iso r.from ++ (b':' ∷ iso r.to))

-- `summary`: `getOrSet` of the range's key, at the time `now`, and `later` when the queries are done.
unfoldable pub summary :
    (Date → Key)
    → AnalyticsRange
    → Date
    → Date
    → Db
    → Summaries
    → Result AnalyticsSummary × Summaries
unfolding compute_summary
summary iso r now later db cache =
    let (cached, kept) = get (cache_key iso r) now cache in
    elim cached [
      | some v ↦ (ok v, kept)
      | none ↦ elim (compute_summary iso r db) [
        | throw e ↦ (throw e, kept)
        | ok v ↦ (ok v, set_for (cache_key iso r) v cache_ttl_seconds later kept)
      ]
    ]

unfoldable pub invalidate : Summaries → Summaries
invalidate cache = del_by_prefix cache_prefix cache

-- `onFinancialChange`: the cache, and what is emitted.
unfoldable pub on_financial_change : Date → Summaries → Summaries × Envelope
unfolding invalidate
on_financial_change at cache =
    (invalidate cache, build_event analytics_updated (of_analytics at) at)

-- Its `@OnEvent` decorators.
abbrev pub is_financial : DomainEvent → Bool
is_financial session_ended = true
is_financial debt_created = true
is_financial debt_updated = true
is_financial _ = false

-- The cache after some events, in order.
unfoldable pub deliver : List Envelope → Summaries → Summaries
unfolding on_financial_change
deliver [] cache = cache
deliver (e ∷ es) cache =
    deliver es (if is_financial e.event then (on_financial_change e.at cache).0 else cache)
