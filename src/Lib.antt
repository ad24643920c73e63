-- ===== src/Lib.antt =====
-- The back end of a game club: rooms with computers that guests rent by the hour, and a ledger of
-- what guests owe. The sources are TypeScript (NestJS, TypeORM on PostgreSQL) under src/.
--
-- Parts and how they interact
--
-- Money (src/common/money/money.ts) is a count of minor units; Money, Money.Double, Money.Charge
-- and Money.Text model it, and Money.Column the column that stores it
-- (src/common/money/money.transformer.ts). The pricing engine
-- (src/modules/sessions/session-pricing.service.ts; Pricing) turns rates and times into money. The
-- sessions service (src/modules/sessions/sessions.service.ts; Sessions) starts, extends, ends and
-- cancels sessions in transactions that lock the computers and session rows, asks the pricing
-- engine for the charge, hands an unpaid rest to the debt ledger
-- (src/modules/debt/debt.service.ts; Debt) inside the same transaction, and emits events
-- (src/modules/realtime/realtime.events.ts; Events) after the commit. Sessions.Board is what the
-- club is to a guest or a cashier, which computers are taken and who owes what, with the moves
-- that its rules allow; Sessions.Refinement carries the transactions over to them. Sessions.Once
-- is about sessions that have ended, Sessions.Exit about the ways out of a session,
-- Sessions.Progress about a club that can always be closed, and Sessions.Requests and
-- Sessions.Refusals about the starts that are refused.
--
-- Staff sign in through src/modules/auth (Auth), which keeps accounts, rotating refresh tokens and
-- the audit log (src/modules/audit; Audit). Auth.Controller is src/modules/auth/auth.controller.ts
-- with its cookies, and Auth.Jar the browser that keeps them; Auth.SignIn and Auth.Visits follow
-- this browser over several requests. Routes has every handler of the controllers
-- (src/modules/*/*.controller.ts) with the metadata of its decorators and the guards of
-- src/app.module.ts; Http and Http.Envelope have what surrounds a handler, from the identifier of
-- the request (src/common/middleware/request-id.middleware.ts) over the guards, the handler and
-- the envelope of the answer (src/common/interceptors/response.interceptor.ts) to the audit, which
-- is the outer interceptor and sees the envelope (src/modules/audit/audit.interceptor.ts), and the
-- answer to an error (src/common/filters/all-exceptions.filter.ts). Realtime is the socket
-- (src/modules/realtime/realtime.gateway.ts), which forwards the events to the clients that are
-- connected.
--
-- Common holds what all share: errors, pages (Common.Pagination), lists of rows that match, in an
-- order (Common.Listing), roles, the exception filter, the cache. Rooms, computers and customers
-- (src/modules/rooms, computers and customers; Rooms, Computers, Customers) are written by the
-- administration; Computers.Status relates the status that a request sets to the sessions. Users
-- (src/modules/users; Users) administers the staff accounts, whose life Users.Accounts follows,
-- and Settings (src/modules/settings) keeps values over defaults. Notifications
-- (src/modules/notifications) listens to the events of new debts. Analytics
-- (src/modules/analytics/analytics.service.ts) sums up the ended sessions of a range and caches
-- the summary until an event of the ledger or the sessions: Analytics.Doubles and
-- Analytics.Rounding have its arithmetic, Analytics.Occupancy the rate of busy computers,
-- Analytics.Shares the rankings, Analytics.Fresh the cache, and Analytics.Ended the effect of an
-- end of a session. Config is the check of the environment at the start and the settings that are
-- read from it (src/config). Tests runs the definitions on an example club, and applies the
-- theorems to it.
--
-- How code corresponds to definitions
--
-- A method has the name of its definition in snake_case: `recordPayment` is Debt.Service's
-- record_payment, `lockActive` is Sessions' lock_active. The body of a transaction is a Tx
-- (Store.Transaction), named after the method with _in: end_in, start_in, record_payment_in. A
-- whole operation with its events is an Action (Store.Action); outside of transactions a sequence
-- of repository calls is a Does (Common.Stateful), in which a write before a throw stays. The
-- tables are lists of rows (Prelude.Rows): findOne is find_one, which does not see soft-deleted
-- rows, and save replaces by key or appends. An INSERT meets the primary key, and for a session
-- the partial unique index uq_session_active_computer (index_conflict). An entry of the ledger
-- also meets the foreign key of its customer (has_key: a soft-deleted row is still there). A
-- session meets its foreign keys by the reads before it. A transaction that throws leaves the
-- tables as they were. A row lock makes two transactions on the same row run in some order, so a
-- run is a sequence of transactions (Sessions.Reach). The services without transactions are
-- modelled as calls that do not overlap; for the rotation of a token, which has neither a
-- transaction nor a lock, Auth.Tokens says what that leaves out. The handlers of a controller
-- other than Auth.Controller only call their service; a request is served (Http.serve) by any
-- function on the state of the services.
--
-- Representation
--
-- Uuid is an opaque number; Date is a number of milliseconds from the earliest date of JavaScript,
-- and sums of dates and durations are assumed to stay in range. A message is a template: its
-- literal pieces and the values put in. The clock, the keys and times of new rows and random
-- values are arguments. Numbers of JavaScript are integers or `other`; forDuration rounds its
-- doubles (Money.Double), and so do the sums, averages and the occupancy rate of the summaries
-- (Analytics.Doubles, where `number` is the Number of a sum below 2 ^ 71); elsewhere the results
-- are exact. Each query that lists rows is given the order in which it finds them
-- (Common.Listing.Scan), since PostgreSQL may order equal keys differently in each query. The
-- difference of two dates in seconds is exact for dates of this range. SUM in PostgreSQL is exact.
-- The digits of a number are printed with fuel 15, which gives the 16 digits of a safe integer.
-- The requests have passed the checks of their DTOs, which are spelled out where a theorem needs
-- them (Debt.Answers, Sessions.Requests). Parameters stand for what is not of this repository:
-- Argon2, the signing of tokens and the Unicode tables (Auth.Crypto), the verification of an
-- access token, decodeURIComponent, toISOString, the order of texts and ILIKE of the database, and
-- the conversions of class-transformer.
--
-- Not modelled
--
-- The modules of Nest (wiring), the decorators of Swagger and the checks of the other DTOs, the
-- limits of requests (the throttler of Nest), the database set-up, migrations and seed, the start
-- of the server and the probe of the database, and dist/, which is the compiled form of the same
-- sources. updatedAt, version and the relation objects of the entities are left out; the
-- operations that are modelled do not read them.
pub mod Prelude
pub mod Common
pub mod Config
pub mod Money
pub mod Entities
pub mod Pricing
pub mod Events
pub mod Store
pub mod Debt
pub mod Sessions
pub mod Rooms
pub mod Customers
pub mod Settings
pub mod Notifications
pub mod Computers
pub mod Audit
pub mod Auth
pub mod Users
pub mod Tests
pub mod Analytics
pub mod Routes
pub mod Http
pub mod Realtime
