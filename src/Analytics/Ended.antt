-- ===== src/Analytics/Ended.antt =====
-- What a session that ends adds to the summaries of src/modules/analytics/analytics.service.ts.
use gameclub_backend.Prelude.{
  ℕ, ◌+◌, ◌≡◌, refl, sym, ap, ◌∙◌, Option, none, some, length, true, false, List, [], ◌∷◌, arith,
  ◌==◌, if◌then◌else◌, Uuid, Date, find_one, find_one-live, save, Bool, Bool-cases, inl, inr, ◌⊎◌,
  ◌&&◌,
}
use gameclub_backend.Prelude.Int.{ℤ, pos, ◌+ℤ◌, int_laws, +ℤ_zero}
use gameclub_backend.Common.Errors.{ok}
use gameclub_backend.Common.Cache.{Key}
use gameclub_backend.Entities.Club.{
  BaseEntity, Session, session_entity, SessionStatus, is_active_status, DebtTransaction,
}
use gameclub_backend.Store.{Db}
use gameclub_backend.Sessions.{EndSessionDto}
use gameclub_backend.Sessions.End.{end_in}
use gameclub_backend.Common.Listing.{select}
use gameclub_backend.Sessions.Stages.{end_in-EndStages}
use gameclub_backend.Sessions.Ending.{settlement_lem, record_shortfall_lem}
use gameclub_backend.Sessions.Coupling.{release_computer_lem}
use gameclub_backend.Sessions.Announced.{end_events}
use gameclub_backend.Analytics.{
  AnalyticsRange, AnalyticsSummary, Summaries, compute_summary, summarise, summary, deliver,
  ended_in, between, sum_of,
}
use gameclub_backend.Money.{is_safe}
use gameclub_backend.Analytics.Doubles.{number}
use gameclub_backend.Analytics.Rounding.{number_exact}
use gameclub_backend.Analytics.Fresh.{summary-deliver, any_financial-end_events}

-- What one row adds to the revenue and to the count of a range.
abbrev paid_in : AnalyticsRange → Session → ℤ
paid_in r s = if ended_in r s then s.amount_paid else pos 0

abbrev counted_in : AnalyticsRange → Session → ℕ
counted_in r s = if ended_in r s then 1 else 0

abbrev pub revenue_in : AnalyticsRange → List Session → ℤ
revenue_in r rows = sum_of (λ s. s.amount_paid) (select (ended_in r) rows)

revenue_in-cons :
    (r : AnalyticsRange) (s : Session) (rows : List Session)
    → revenue_in r (s ∷ rows) ≡ paid_in r s +ℤ revenue_in r rows
unfolding select sum_of
revenue_in-cons r s rows = elim (Bool-cases (ended_in r s)) [
  | inl e ↦ rw e refl
  | inr e ↦ rw e (omega int_laws)
]

assoc : (a b c : ℤ) → (a +ℤ b) +ℤ c ≡ a +ℤ (b +ℤ c)
assoc a b c = omega int_laws

exchange : (a b c d e : ℤ) → b +ℤ c ≡ d +ℤ e → (a +ℤ b) +ℤ c ≡ (a +ℤ d) +ℤ e
exchange a b c d e h = assoc a b c ∙ ap (λ v. a +ℤ v) h ∙ sym (assoc a d e)

swap : (a b c : ℤ) → (a +ℤ b) +ℤ c ≡ (c +ℤ b) +ℤ a
swap a b c = omega int_laws

revenue_in-save :
    (r : AnalyticsRange) (old new : Session) (rows : List Session)
    → find_one new.base.id rows ≡ some old
    → revenue_in r (save new rows) +ℤ paid_in r old ≡ revenue_in r rows +ℤ paid_in r new
unfolding find_one save
revenue_in-save r old new [] h = absurd (cc)
revenue_in-save r old new (s ∷ rows) h = elim (Bool-cases (s.base.id == new.base.id)) [
  | inl e ↦
      let same : s ≡ old = ground arith in
      rw (e, revenue_in-cons r new rows, revenue_in-cons r s rows, ← same)
        (swap (paid_in r new) (revenue_in r rows) (paid_in r s))
  | inr e ↦
      rw (e, revenue_in-cons r s (save new rows), revenue_in-cons r s rows)
        (exchange (paid_in r s) _ _ _ _ (revenue_in-save r old new rows (rw e at h)))
]

count_in-save :
    (r : AnalyticsRange) (old new : Session) (rows : List Session)
    → find_one new.base.id rows ≡ some old
    → length (select (ended_in r) (save new rows)) + counted_in r old
      ≡ length (select (ended_in r) rows) + counted_in r new
unfolding find_one save select
count_in-save r old new [] h = absurd (cc)
count_in-save r old new (s ∷ rows) h = ground (arith, count_in-save r old new rows)

-- The rows of `end`: the old one, not counted in any range, in place of it the new one.
record EndedRow (id : Uuid) (at : Date) (db : Db) (saved : Session) (db' : Db) : Type 0 where
  old : Session
  found : find_one saved.base.id db.sessions ≡ some old
  was_active : is_active_status old.status ≡ true
  live : saved.base.deleted_at ≡ none
  over : saved.status ≡ SessionStatus.ended
  when : saved.ended_at ≡ some at
  stored : db'.sessions ≡ save saved db.sessions

end_in-EndedRow :
    (id : Uuid) (dto : EndSessionDto) (actor : Uuid) (at : Date) (row : BaseEntity) (db : Db)
    (saved : Session) (debt : Option DebtTransaction) (db' : Db)
    → row.deleted_at ≡ none
    → end_in id dto actor at row db ≡ ok ((saved, debt), db')
    → EndedRow id at db saved db'
end_in-EndedRow id dto actor at row db saved debt db' live h =
    let st = end_in-EndStages id dto actor at row db saved debt db' h in
    let (final, paid, sum, least, full) =
      settlement_lem st.old dto.amount_paid at st.settled st.settles in
    let (kept, added) =
      record_shortfall_lem id saved st.settled.shortfall actor row _ debt st.noted live least
        st.notes_debt in
    let (released, free, others) =
      release_computer_lem st.old.computer_id st.noted db' st.releases in
    let alive = find_one-live id st.old db.sessions st.found in
    record {
      old = st.old;
      found = ground (arith, st.found, st.key, st.row_saved);
      was_active = st.was_active;
      live = ground (arith, st.row_saved);
      over = ground (arith, st.row_saved);
      when = ground (arith, st.row_saved);
      stored = rw (released, kept) refl;
    }

ended_in-active :
    (r : AnalyticsRange) (s : Session) → is_active_status s.status ≡ true → ended_in r s ≡ false
unfolding ended_in
ended_in-active r s h = ground arith

ended_in-over :
    (r : AnalyticsRange) (s : Session) (at : Date)
    → s.base.deleted_at ≡ none
    → s.status ≡ SessionStatus.ended
    → s.ended_at ≡ some at
    → ended_in r s ≡ between r (some at)
unfolding ended_in
ended_in-over r s at live over when = ground arith

-- What a summary says of the rows of its range.
compute_summary-rows :
    (iso : Date → Key) (r : AnalyticsRange) (db : Db) (v : AnalyticsSummary)
    → compute_summary iso r db ≡ ok v
    → (v.revenue ≡ number (revenue_in r db.sessions))
      × (v.sessions_count ≡ length (select (ended_in r) db.sessions))
unfolding compute_summary summarise
compute_summary-rows iso r db v h = (ground arith, ground arith)

both : (a b : Bool) → a && b ≡ true → (a ≡ true) × (b ≡ true)
both a b h = ground arith

-- Sums that grow by `w`, each shown as its double: by just `w`, if both are safe integers.
shown :
    (a w b c : ℤ)
    → b ≡ number a
    → c ≡ number (a +ℤ w)
    → (is_safe a && is_safe (a +ℤ w) ≡ false) ⊎ (c ≡ b +ℤ w)
shown a w b c eb ec = elim (Bool-cases (is_safe a && is_safe (a +ℤ w))) [
  | inr e ↦ inl e
  | inl e ↦
      let (first, second) = both (is_safe a) (is_safe (a +ℤ w)) e in
      inr
        (ec ∙ number_exact (a +ℤ w) second ∙ ap (λ v. v +ℤ w) (sym (number_exact a first) ∙ sym eb))
]

-- A session that ends shows up in the next summaries: when its events have been delivered, a summary
-- that succeeds counts one session more than one before the end, if the range holds the time of the
-- end, and otherwise as many, whatever was in the cache. Its revenue is the `Number` of the sum of
-- before and the amount paid (in the range), and so, if both sums are safe integers, it is the
-- revenue of before and this amount.
pub end_in-summary :
    (iso : Date → Key) (r : AnalyticsRange) (now later : Date) (id : Uuid) (dto : EndSessionDto)
    (actor : Uuid) (at : Date) (row : BaseEntity) (event_at debt_at : Date) (db : Db)
    (saved : Session) (debt : Option DebtTransaction) (db' : Db) (cache : Summaries)
    (v v' : AnalyticsSummary)
    → row.deleted_at ≡ none
    → end_in id dto actor at row db ≡ ok ((saved, debt), db')
    → compute_summary iso r db ≡ ok v
    → (summary iso r now later db' (deliver (end_events saved debt event_at debt_at db') cache)).0
      ≡ ok v'
    → (v'.sessions_count ≡ v.sessions_count + (if between r (some at) then 1 else 0))
      × (v.revenue ≡ number (revenue_in r db.sessions))
      × (v'.revenue
          ≡ number (
              revenue_in r db.sessions
              +ℤ (if between r (some at) then saved.amount_paid else pos 0)))
      × ((is_safe (revenue_in r db.sessions)
              && is_safe (
                  revenue_in r db.sessions
                  +ℤ (if between r (some at) then saved.amount_paid else pos 0))
            ≡ false)
          ⊎ (v'.revenue ≡ v.revenue +ℤ (if between r (some at) then saved.amount_paid else pos 0)))
end_in-summary iso r now later id dto actor at row event_at debt_at db saved debt db' cache v v'
      live h before after =
    let fresh =
      summary-deliver iso r now later db' (end_events saved debt event_at debt_at db') cache
        (any_financial-end_events saved debt event_at debt_at db') in
    let row_of = end_in-EndedRow id dto actor at row db saved debt db' live h in
    let (revenue, count) = compute_summary-rows iso r db v before in
    let (revenue', count') = compute_summary-rows iso r db' v' (sym fresh ∙ after) in
    let was = ended_in-active r row_of.old row_of.was_active in
    let is = ended_in-over r saved at row_of.live row_of.over row_of.when in
    let moved = revenue_in-save r row_of.old saved db.sessions row_of.found in
    let counted = count_in-save r row_of.old saved db.sessions row_of.found in
    let w : ℤ = if between r (some at) then saved.amount_paid else pos 0 in
    let sum : revenue_in r db'.sessions ≡ revenue_in r db.sessions +ℤ w =
      rw row_of.stored
        (+ℤ_zero (revenue_in r (save saved db.sessions)) ∙ (rw (was, is) at moved)) in
    let shown' = revenue' ∙ ap number sum in
    (
      count' ∙ rw row_of.stored (omega (arith, (rw (was, is, ← count) at counted))),
      revenue,
      shown',
      shown (revenue_in r db.sessions) w v.revenue v'.revenue revenue shown',
    )
