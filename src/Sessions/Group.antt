-- ===== src/Sessions/Group.antt =====
-- A group of sessions, started in one transaction (`start` of
-- src/modules/sessions/sessions.service.ts).
use mathlib.Core.List.{append-nil, append_assoc}
use native.Mathlib.Decide.{ℕ_discrete}
use gameclub_backend.Prelude.{
  ◌⊎◌, inl, inr, ℕ, suc, ◌+◌, ◌≤◌, ◌≡◌, refl, sym, ap, ◌∙◌, Option, some, none, true, List, [], ◌∷◌,
  ◌++◌, map, arith, ◌==◌, if◌then◌else◌, Uuid, Date,
}
use gameclub_backend.Common.Errors.{ok}
use gameclub_backend.Entities.Club.{
  BaseEntity, computer_entity, Session, Customer, session_entity, is_active_status,
}
use gameclub_backend.Store.{Db}
use gameclub_backend.Store.Transaction.{>>=-then}
use gameclub_backend.Sessions.{StartSessionDto}
use gameclub_backend.Sessions.Start.{
  StartContext, start_one, start_each, start_in, resolve_customer,
}
use gameclub_backend.Sessions.Rows.{active_on, active_on-append, in_use_at}
use gameclub_backend.Sessions.Coupling.{Coupled, available_computer-free, start_writes-Coupled}
use gameclub_backend.Sessions.Starting.{start_one-StartStages}

-- How often a computer is asked for.
unfoldable pub times : Uuid → List Uuid → ℕ
times c [] = 0
times c (id ∷ ids) = (if id == c then 1 else 0) + times c ids

-- What a group that starts has done.
pub record Started (ids : List Uuid) (db : Db) (ss : List Session) (db' : Db) : Type 0 where
  pub coupled : Coupled db'
  pub appended : db'.sessions ≡ db.sessions ++ ss
  pub places : map (λ (s : Session). s.computer_id) ss ≡ ids
  pub counts : (c : Uuid) → active_on c db'.sessions ≡ active_on c db.sessions + times c ids
  pub tables : db' ≡ record db { sessions = db'.sessions; computers = db'.computers }

start_one-Started :
    (c : StartContext) (base : BaseEntity) (id : Uuid) (db : Db) (s : Session) (db' : Db)
    → Coupled db
    → start_one c base id db ≡ ok (s, db')
    → Started (id ∷ []) db (s ∷ []) db'
unfolding times
start_one-Started c base id db s db' coupled h =
    let st = start_one-StartStages c base id db s db' h in
    let (same, key, free, found) =
      available_computer-free id st.computer db db coupled st.offered in
    let place : s.computer_id ≡ st.computer.base.id = ground (arith, st.made) in
    let runs : is_active_status s.status ≡ true = ground (arith, st.made) in
    let both = start_writes-Coupled st.computer s db coupled (rw key found) (rw key free) place in
    record {
      coupled = rw st.written both;
      appended = ground (arith, st.written);
      places = ground arith;
      counts = λ k. ground (arith, st.written, active_on-append k s db.sessions);
      tables = ground (arith, st.written);
    }

Started-nil : (db : Db) → Coupled db → Started [] db [] db
unfolding times
Started-nil db coupled = record {
  coupled = coupled;
  appended = sym (append-nil db.sessions);
  places = refl;
  counts = λ c. ground arith;
  tables = refl;
}

Started-cons :
    (id : Uuid) (ids : List Uuid) (s : Session) (ss : List Session) (db mid db' : Db)
    → Started (id ∷ []) db (s ∷ []) mid
    → Started ids mid ss db'
    → Started (id ∷ ids) db (s ∷ ss) db'
unfolding times
Started-cons id ids s ss db mid db' one more = record {
  coupled = more.coupled;
  appended = more.appended ∙ ap (λ l. l ++ ss) one.appended ∙ append_assoc db.sessions (s ∷ []) ss;
  places = ground (arith, one.places, more.places);
  counts = λ c. ground (arith, one.counts c, more.counts c);
  tables = ground (arith, one.tables, more.tables);
}

start_each-Started :
    (c : StartContext) (new_row : ℕ → BaseEntity) (i : ℕ) (ids : List Uuid) (db : Db)
    (ss : List Session) (db' : Db)
    → Coupled db
    → start_each c new_row i ids db ≡ ok (ss, db')
    → Started ids db ss db'
unfolding start_each times
start_each-Started c new_row i [] db ss db' coupled h =
    let none_made : ss ≡ [] = ground arith in
    let same : db' ≡ db = ground arith in rw (none_made, same) (Started-nil db coupled)
start_each-Started c new_row i (id ∷ ids) db ss db' coupled h =
    >>=-then (start_one c (new_row i) id) _ db h λ s db1 starts h1.
      >>=-then (start_each c new_row (suc i) ids) _ db1 h1 λ rest db2 goes h2.
        let one = start_one-Started c (new_row i) id db s db1 coupled starts in
        let more = start_each-Started c new_row (suc i) ids db1 rest db2 one.coupled goes in
        let all : ss ≡ s ∷ rest = ground arith in
        let last : db' ≡ db2 = ground arith in
        rw (all, last) (Started-cons id ids s rest db db1 db2 one more)

resolve_customer_lem :
    (id : Option Uuid) (k : Option Customer) (db db' : Db)
    → resolve_customer id db ≡ ok (k, db')
    → db' ≡ db
unfolding resolve_customer
resolve_customer_lem none k db db' h = ground arith
resolve_customer_lem (some id) k db db' h = ground arith

-- `start` on coupled tables, when it succeeds: the new sessions are added for just the computers
-- asked for, in that order; no computer was asked for twice; each of them is now IN_USE with one
-- active session; and sessions and computers are coupled again.
pub start_in-group :
    (dto : StartSessionDto) (group : Option Uuid) (at : Date) (actor : Uuid)
    (new_row : ℕ → BaseEntity) (db : Db) (ss : List Session) (db' : Db)
    → Coupled db
    → start_in dto group at actor new_row db ≡ ok (ss, db')
    → Started dto.computer_ids db ss db'
      × ((c : Uuid) → times c dto.computer_ids ≤ 1)
      × ((c : Uuid)
          → (times c dto.computer_ids ≡ 0)
            ⊎ ((active_on c db'.sessions ≡ 1) × (in_use_at c db'.computers ≡ true)))
unfolding start_in
start_in-group dto group at actor new_row db ss db' coupled h =
    >>=-then (resolve_customer dto.customer_id) _ db h λ customer db1 knows h1.
      let same = resolve_customer_lem dto.customer_id customer db db1 knows in
      let all =
        start_each-Started
          (record {
            dto = dto;
            customer = customer;
            group_id = group;
            started_at = at;
            actor_id = actor;
          })
          new_row 0 dto.computer_ids db ss db' coupled (rw same at h1) in
      (
        all,
        λ c. ground (arith, all.counts c, all.coupled c),
        λ c. elim (ℕ_discrete (times c dto.computer_ids) 0) [
          | yes e ↦ inl e
          | no ne ↦ inr (
            ground (arith, all.counts c, all.coupled c),
            ground (arith, all.counts c, all.coupled c),
          )
        ],
      )
