-- ===== src/Sessions/Quotes.antt =====
-- The quote of a session and its final charge; the events of a start
-- (src/modules/sessions/sessions.service.ts).
use mathlib.Core.Path.{subst}
use mathlib.Core.List.{append-nil, append_assoc}
use gameclub_backend.Prelude.{
  suc, ℕ, ◌≡◌, refl, sym, ap, ◌∙◌, Option, none, some, true, false, List, [], ◌∷◌, ◌++◌, arith,
  Uuid, Date, find_one, inl, inr,
}
use gameclub_backend.Prelude.Int.{ℤ}
use gameclub_backend.Common.Errors.{Result, ok, throw, Result-cases}
use gameclub_backend.Entities.Club.{
  BaseEntity, Session, session_entity, DebtTransaction, is_active_status,
}
use gameclub_backend.Events.{Envelope, session_started, session_event, build_event}
use gameclub_backend.Pricing
use gameclub_backend.Pricing.{finalize}
use gameclub_backend.Store.{Db, World}
use gameclub_backend.Sessions.{StartSessionDto, EndSessionDto}
use gameclub_backend.Sessions.Start.{start_in}
use gameclub_backend.Sessions.End.{end_in}
use gameclub_backend.Sessions.Coupling.{Coupled}
use gameclub_backend.Sessions.Stages.{end_in-EndStages}
use gameclub_backend.Sessions.Ending.{settlement_lem}
use gameclub_backend.Sessions.Closing.{end_in-frees}
use gameclub_backend.Sessions.Group.{Started, start_in-group}
use gameclub_backend.Sessions.Service.{quote, find_by_id, group_of, emit_started, start}

quote_active :
    (id : Uuid) (now at : Date) (s : Session) (db : Db) (v : ℤ)
    → find_one id db.sessions ≡ some s
    → is_active_status s.status ≡ true
    → finalize s now ≡ ok (record { minor = v })
    → quote id now at db ≡ ok (v, at)
unfolding quote find_by_id Pricing.quote finalize
quote_active id now at s db v found active final = ground arith

quote_closed :
    (id : Uuid) (now at : Date) (s : Session) (db : Db)
    → find_one id db.sessions ≡ some s
    → is_active_status s.status ≡ false
    → quote id now at db ≡ ok (s.amount_due, at)
unfolding quote find_by_id
quote_closed id now at s db found closed = ground arith

-- The quote of an active session at some moment is what ending it at that moment charges, and
-- after the end the quote, at any moment, stays that amount.
pub quote-eq-charge :
    (id : Uuid) (dto : EndSessionDto) (actor : Uuid) (now : Date) (row : BaseEntity) (db : Db)
    (saved : Session) (debt : Option DebtTransaction) (db' : Db) (at : Date)
    → row.deleted_at ≡ none
    → Coupled db
    → end_in id dto actor now row db ≡ ok ((saved, debt), db')
    → (quote id now at db ≡ ok (saved.amount_due, at))
      × ((later : Date) → quote id later at db' ≡ ok (saved.amount_due, at))
quote-eq-charge id dto actor now row db saved debt db' at live coupled h =
    let st = end_in-EndStages id dto actor now row db saved debt db' h in
    let parts = settlement_lem st.old dto.amount_paid now st.settled st.settles in
    let due : saved.amount_due ≡ st.settled.due.minor = ground (arith, st.row_saved) in
    let left = end_in-frees id dto actor now row db saved debt db' live coupled h in
    (
      quote_active id now at st.old db saved.amount_due st.found st.was_active
          (ground (arith, parts.0, due)),
      λ later. quote_closed id later at saved db' left.0 (rw left.1 refl),
    )

abbrev pub started_envelope : Date → Session → Envelope
started_envelope at s = build_event session_started (session_event s) at

-- The events of a start, in order.
abbrev pub started_events : (ℕ → Date) → ℕ → List Session → List Envelope
started_events at i [] = []
started_events at i (s ∷ ss) = started_envelope (at i) s ∷ started_events at (suc i) ss

-- A start as the client sees it: nothing has changed, or the group has started and each of its
-- sessions is announced, in order.
abbrev pub Starts : List Uuid → (ℕ → Date) → World → Result (List Session) × World → Type 0
Starts ids at w (throw e, w') = w' ≡ w
Starts ids at w (ok ss, w') =
    Started ids w.db ss w'.db × (w'.emitted ≡ w.emitted ++ started_events at 0 ss)

emit_started_lem :
    (at : ℕ → Date) (i : ℕ) (ss : List Session) (w : World)
    → emit_started at i ss w ≡ (ok tt, record w { emitted = w.emitted ++ started_events at i ss })
unfolding emit_started
emit_started_lem at i [] w =
    ap (λ l. (ok tt, record w { emitted = l })) (sym (append-nil w.emitted))
emit_started_lem at i (s ∷ ss) w =
    emit_started_lem at (suc i) ss
      (record w { emitted = w.emitted ++ started_envelope (at i) s ∷ [] })
    ∙ ap (λ l. (ok tt, record w { emitted = l }))
        (append_assoc w.emitted (started_envelope (at i) s ∷ []) (started_events at (suc i) ss))

-- `start` on coupled tables leaves tables and events as they were, or it starts a session on each
-- computer asked for and then announces each of them, in order.
pub start-Starts :
    (dto : StartSessionDto) (random : Uuid) (started_at : Date) (actor : Uuid)
    (new_row : ℕ → BaseEntity) (at : ℕ → Date) (w : World)
    → Coupled w.db
    → Starts dto.computer_ids at w (start dto random started_at actor new_row at w)
unfolding start
start-Starts dto random started_at actor new_row at w coupled =
    elim (Result-cases (start_in dto (group_of dto random) started_at actor new_row w.db)) [
      | inr (e, fails) ↦ subst (Starts dto.computer_ids at w) {x = (throw e, w)} (ground arith) refl
      | inl ((ss, db'), starts) ↦
          subst (Starts dto.computer_ids at w)
            {x = (ok ss, record { db = db'; emitted = w.emitted ++ started_events at 0 ss })}
            (ground (arith, emit_started_lem at 0 ss (record w { db = db' })))
            (
              (start_in-group dto (group_of dto random) started_at actor new_row w.db ss db' coupled
                  starts).0,
              refl,
            )
    ]
