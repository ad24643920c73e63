-- ===== src/Analytics/Fresh.antt =====
-- The cache of the summaries of src/modules/analytics/analytics.service.ts, under the events of the
-- other services.
use gameclub_backend.Prelude.{
  ◌≡◌, refl, ◌∙◌, Option, none, some, Bool, true, false, ◌||◌, List, [], ◌∷◌, ◌++◌, arith, Date,
  Bool-cases, inl, inr,
}
use gameclub_backend.Common.Cache.{Key, starts_with, get, del_by_prefix}
use gameclub_backend.Common.Cache.Laws.{get-del_by_prefix}
use gameclub_backend.Entities.Club.{Session, session_entity, DebtTransaction}
use gameclub_backend.Events.{Envelope}
use gameclub_backend.Store.{Db}
use gameclub_backend.Sessions.Announced.{end_events}
use gameclub_backend.Analytics.{
  AnalyticsRange, Summaries, cache_prefix, cache_key, compute_summary, summary, invalidate,
  is_financial, deliver,
}

starts_with-append : (p k : Key) → starts_with (p ++ k) p ≡ true
starts_with-append [] k = ground arith
starts_with-append (a ∷ p) k = ground (arith, starts_with-append p k)

has_prefix :
    (iso : Date → Key) (r : AnalyticsRange) → starts_with (cache_key iso r) cache_prefix ≡ true
has_prefix iso r = starts_with-append cache_prefix (iso r.from ++ (b':' ∷ iso r.to))

dropped :
    (k p : Key) (now : Date) (cache : Summaries)
    → starts_with k p ≡ true
    → (get k now (del_by_prefix p cache)).0 ≡ none
dropped k p now cache h = get-del_by_prefix k p now cache ∙ rw h refl

invalidate-none :
    (iso : Date → Key) (r : AnalyticsRange) (now : Date) (cache : Summaries)
    → (get (cache_key iso r) now (invalidate cache)).0 ≡ none
unfolding invalidate
invalidate-none iso r now cache =
    dropped (cache_key iso r) cache_prefix now cache (has_prefix iso r)

-- Some event of the list makes the cache stale.
unfoldable pub any_financial : List Envelope → Bool
any_financial [] = false
any_financial (e ∷ es) = is_financial e.event || any_financial es

deliver-keeps_none :
    (iso : Date → Key) (r : AnalyticsRange) (now : Date) (es : List Envelope) (cache : Summaries)
    → (get (cache_key iso r) now cache).0 ≡ none
    → (get (cache_key iso r) now (deliver es cache)).0 ≡ none
unfolding deliver
deliver-keeps_none iso r now [] cache h = h
deliver-keeps_none iso r now (e ∷ es) cache h = elim (Bool-cases (is_financial e.event)) [
  | inl p ↦
      rw p (deliver-keeps_none iso r now es (invalidate cache) (invalidate-none iso r now cache))
  | inr p ↦ rw p (deliver-keeps_none iso r now es cache h)
]

deliver-none :
    (iso : Date → Key) (r : AnalyticsRange) (now : Date) (es : List Envelope) (cache : Summaries)
    → any_financial es ≡ true
    → (get (cache_key iso r) now (deliver es cache)).0 ≡ none
unfolding deliver any_financial
deliver-none iso r now [] cache h = absurd (cc)
deliver-none iso r now (e ∷ es) cache h = elim (Bool-cases (is_financial e.event)) [
  | inl p ↦
      rw p (deliver-keeps_none iso r now es (invalidate cache) (invalidate-none iso r now cache))
  | inr p ↦ rw p (deliver-none iso r now es cache (rw p at h))
]

summary-miss :
    (iso : Date → Key) (r : AnalyticsRange) (now later : Date) (db : Db) (cache : Summaries)
    → (get (cache_key iso r) now cache).0 ≡ none
    → (summary iso r now later db cache).0 ≡ compute_summary iso r db
unfolding summary
summary-miss iso r now later db cache h = ground arith

-- After events of which one is an end of a session, a new debt or a change of debt, a summary of any
-- range, at any time, is computed from the tables as they are.
pub summary-deliver :
    (iso : Date → Key) (r : AnalyticsRange) (now later : Date) (db : Db) (es : List Envelope)
    (cache : Summaries)
    → any_financial es ≡ true
    → (summary iso r now later db (deliver es cache)).0 ≡ compute_summary iso r db
summary-deliver iso r now later db es cache h =
    summary-miss iso r now later db (deliver es cache) (deliver-none iso r now es cache h)

pub any_financial-end_events :
    (s : Session) (debt : Option DebtTransaction) (at debt_at : Date) (db : Db)
    → any_financial (end_events s debt at debt_at db) ≡ true
unfolding any_financial
any_financial-end_events s none at debt_at db = refl
any_financial-end_events s (some t) at debt_at db = ground arith
