-- ===== src/Routes/Access.antt =====
-- Who gets to which handler, by the guards of src/app.module.ts.
use gameclub_backend.Prelude.{
  ◌≤◌, ◌≡◌, ◌↔◌, inl, inr, refl, Option, none, some, true, false, String, List, [], ◌∷◌, arith,
  Option-cases,
}
use gameclub_backend.Common.Errors.{ok}
use gameclub_backend.Common.Roles.{
  Credentials, extract_token, presented_token, jwt_auth_guard, roles_guard, rank,
  roles_guard-Reaches,
}
use gameclub_backend.Entities.Staff.{Role, owner, manager, cashier}
use gameclub_backend.Auth.{Claims}
use gameclub_backend.Routes.{Route, override, enter}
use gameclub_backend.Routes.Table.{
  AuthHandler, RoomsHandler, ComputersHandler, CustomersHandler, DebtHandler, SettingsHandler,
  Endpoint, of_auth, of_users, of_rooms, of_computers, of_customers, of_debt, of_sessions,
  of_notifications, of_settings, of_health, analytics_summary, audit_find_all, route, class_roles,
}

-- What the club's rules ask for each endpoint, by what it does.
pub data Access : Type 0 where
  anyone signed_in : Access
  at_least : Role → Access

abbrev pub policy : Endpoint → Access
policy (of_auth AuthHandler.login) = anyone
policy (of_auth AuthHandler.refresh) = anyone
policy (of_auth _) = signed_in
policy (of_users _) = at_least owner
policy (of_rooms RoomsHandler.find_all) = at_least cashier
policy (of_rooms RoomsHandler.find_one) = at_least cashier
policy (of_rooms _) = at_least manager
policy (of_computers ComputersHandler.find_all) = at_least cashier
policy (of_computers ComputersHandler.find_one) = at_least cashier
policy (of_computers _) = at_least manager
policy (of_customers CustomersHandler.remove) = at_least manager
policy (of_customers _) = at_least cashier
policy (of_debt DebtHandler.correct) = at_least owner
policy (of_debt _) = at_least cashier
policy (of_sessions _) = at_least cashier
policy (of_notifications _) = at_least cashier
policy (of_settings SettingsHandler.set) = at_least owner
policy (of_settings SettingsHandler.get_all) = at_least cashier
policy (of_health _) = anyone
policy analytics_summary = at_least manager
policy audit_find_all = at_least owner

-- A request with a token that verifies to these claims.
abbrev pub Bears : (String → Option Claims) → Credentials → Claims → Type 0
Bears verify credentials claims =
    (token : String) × (presented_token (extract_token credentials) ≡ some token)
    × (verify token ≡ some claims)

-- The principal that a policy lets through.
abbrev pub Permits : Access → (String → Option Claims) → Credentials → Option Claims → Type 0
Permits anyone verify credentials user = user ≡ none
Permits signed_in verify credentials user =
    (claims : Claims) × (user ≡ some claims) × Bears verify credentials claims
Permits (at_least role) verify credentials user =
    (claims : Claims) × (user ≡ some claims)
    × Bears verify credentials claims
    × (rank role ≤ rank claims.role)

enter_open :
    (verify : String → Option Claims) (r : Route) (credentials : Credentials) (user : Option Claims)
    → r.is_public ≡ true
    → r.roles ≡ none
    → (enter verify none r credentials ≡ ok user) ↔ (user ≡ none)
unfolding enter jwt_auth_guard roles_guard
enter_open verify r credentials user p q = ground arith

-- The guards let a principal pass exactly if it bears a token and has a role that is asked for.
enter-Bears :
    (verify : String → Option Claims) (of_class : Option (List Role)) (r : Route)
    (credentials : Credentials) (user : Option Claims)
    → r.is_public ≡ false
    → enter verify of_class r credentials ≡ ok user
    → (claims : Claims) × (user ≡ some claims)
      × Bears verify credentials claims
      × (roles_guard (override r.roles of_class) (some claims.role) ≡ ok true)
unfolding enter jwt_auth_guard roles_guard
enter-Bears verify of_class r credentials user p h =
    elim (Option-cases (presented_token (extract_token credentials))) [
      | inl e ↦ absurd (ground arith)
      | inr (token, e) ↦ elim (Option-cases (verify token)) [
        | inl q ↦ absurd (ground arith)
        | inr (claims, q) ↦ (claims, ground arith, (token, e, q), ground arith)
      ]
    ]

Bears-enter :
    (verify : String → Option Claims) (of_class : Option (List Role)) (r : Route)
    (credentials : Credentials) (claims : Claims)
    → r.is_public ≡ false
    → Bears verify credentials claims
    → roles_guard (override r.roles of_class) (some claims.role) ≡ ok true
    → enter verify of_class r credentials ≡ ok (some claims)
unfolding enter jwt_auth_guard
Bears-enter verify of_class r credentials claims p (token, e, q) h = ground arith

roles_guard_one :
    (r role : Role) → (roles_guard (some (r ∷ [])) (some role) ≡ ok true) ↔ (rank r ≤ rank role)
roles_guard_one r role = ground (arith, roles_guard-Reaches role r [])

-- The metadata that carry out a policy.
abbrev Agrees : Access → Option (List Role) → Route → Type 0
Agrees anyone of_class r = (r.is_public ≡ true) × (r.roles ≡ none) × (of_class ≡ none)
Agrees signed_in of_class r = (r.is_public ≡ false) × (override r.roles of_class ≡ none)
Agrees (at_least role) of_class r =
    (r.is_public ≡ false) × (override r.roles of_class ≡ some (role ∷ []))

Agrees-Permits :
    (access : Access) (of_class : Option (List Role)) (r : Route) (verify : String → Option Claims)
    (credentials : Credentials) (user : Option Claims)
    → Agrees access of_class r
    → (enter verify of_class r credentials ≡ ok user) ↔ Permits access verify credentials user
unfolding roles_guard
Agrees-Permits anyone of_class r verify credentials user (p, q, e) =
    rw e (enter_open verify r credentials user p q)
Agrees-Permits signed_in of_class r verify credentials user (p, q) = (
  λ h.
      let (claims, is, bears, guarded) = enter-Bears verify of_class r credentials user p h in
      (claims, is, bears),
  λ (claims, is, bears).
      rw is (Bears-enter verify of_class r credentials claims p bears (rw q refl)),
)
Agrees-Permits (at_least role) of_class r verify credentials user (p, q) = (
  λ h.
      let (claims, is, bears, guarded) = enter-Bears verify of_class r credentials user p h in
      (claims, is, bears, (roles_guard_one role claims.role).0 (rw q at guarded)),
  λ (claims, is, bears, high). rw is (
      Bears-enter verify of_class r credentials claims p bears
        (rw q ((roles_guard_one role claims.role).1 high))),
)

agrees : (e : Endpoint) → Agrees (policy e) (class_roles e) (route e)
unfolding route class_roles
agrees (of_auth AuthHandler.login) = (refl, refl, refl)
agrees _ = ground arith

-- The guards carry out the policy of the club: a request gets to an endpoint, as a given principal,
-- exactly if the policy permits it. Only a sign-in, a refresh and the health checks are open; staff
-- accounts, the audit log, settings and corrections are the owner's; rooms, computers, analytics and
-- the removal of customers a manager's; the rest is for any member of staff, by a valid token.
pub enter-Permits :
    (e : Endpoint) (verify : String → Option Claims) (credentials : Credentials)
    (user : Option Claims)
    → (enter verify (class_roles e) (route e) credentials ≡ ok user)
      ↔ Permits (policy e) verify credentials user
enter-Permits e verify credentials user =
    Agrees-Permits (policy e) (class_roles e) (route e) verify credentials user (agrees e)
