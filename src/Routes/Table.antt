-- ===== src/Routes/Table.antt =====
-- The handlers of the controllers, each with its route, and the roles of the classes.
use gameclub_backend.Prelude.{Option, none, some, List, [], ◌∷◌}
use gameclub_backend.Entities.Staff.{Role, owner, manager, cashier}
use gameclub_backend.Routes.{Route, get, post, put, patch, delete, reads, opens, calls, writes}

abbrev only : Role → Option (List Role)
only r = some (r ∷ [])

pub data AuthHandler : Type 0 where
  login refresh logout me change_password : AuthHandler

unfoldable pub auth_route : AuthHandler → Route
auth_route login = opens post "auth/login"
auth_route refresh = opens post "auth/refresh"
auth_route logout = calls post "auth/logout" none
auth_route me = reads "auth/me" none
auth_route change_password = calls post "auth/change-password" none

pub data UsersHandler : Type 0 where
  create find_all find_one update remove : UsersHandler

unfoldable pub users_route : UsersHandler → Route
users_route create = writes post "users" none "USER_CREATE" "User"
users_route find_all = reads "users" none
users_route find_one = reads "users/:id" none
users_route update = writes patch "users/:id" none "USER_UPDATE" "User"
users_route remove = writes delete "users/:id" none "USER_DELETE" "User"

pub data RoomsHandler : Type 0 where
  create find_all find_one update remove : RoomsHandler

unfoldable pub rooms_route : RoomsHandler → Route
rooms_route create = writes post "rooms" (only manager) "ROOM_CREATE" "Room"
rooms_route find_all = reads "rooms" (only cashier)
rooms_route find_one = reads "rooms/:id" (only cashier)
rooms_route update = writes patch "rooms/:id" (only manager) "ROOM_UPDATE" "Room"
rooms_route remove = writes delete "rooms/:id" (only manager) "ROOM_DELETE" "Room"

pub data ComputersHandler : Type 0 where
  create find_all find_one update remove : ComputersHandler

unfoldable pub computers_route : ComputersHandler → Route
computers_route create = writes post "computers" (only manager) "COMPUTER_CREATE" "Computer"
computers_route find_all = reads "computers" (only cashier)
computers_route find_one = reads "computers/:id" (only cashier)
computers_route update = writes patch "computers/:id" (only manager) "COMPUTER_UPDATE" "Computer"
computers_route remove = writes delete "computers/:id" (only manager) "COMPUTER_DELETE" "Computer"

pub data CustomersHandler : Type 0 where
  create find_all find_one update remove : CustomersHandler

unfoldable pub customers_route : CustomersHandler → Route
customers_route create = writes post "customers" (only cashier) "CUSTOMER_CREATE" "Customer"
customers_route find_all = reads "customers" (only cashier)
customers_route find_one = reads "customers/:id" (only cashier)
customers_route update = writes patch "customers/:id" (only cashier) "CUSTOMER_UPDATE" "Customer"
customers_route remove = writes delete "customers/:id" (only manager) "CUSTOMER_DELETE" "Customer"

pub data DebtHandler : Type 0 where
  balance ledger record_payment correct : DebtHandler

unfoldable pub debt_route : DebtHandler → Route
debt_route balance = reads "customers/:customerId/debt/balance" (only cashier)
debt_route ledger = reads "customers/:customerId/debt/ledger" (only cashier)
debt_route record_payment =
    writes post "customers/:customerId/debt/payments" (only cashier) "DEBT_PAYMENT"
      "DebtTransaction"
debt_route correct =
    writes post "customers/:customerId/debt/corrections" (only owner) "DEBT_CORRECTION"
      "DebtTransaction"

pub data SessionsHandler : Type 0 where
  start find_all active find_one quote extend end cancel : SessionsHandler

unfoldable pub sessions_route : SessionsHandler → Route
sessions_route start = writes post "sessions" none "SESSION_START" "Session"
sessions_route find_all = reads "sessions" none
sessions_route active = reads "sessions/active" none
sessions_route find_one = reads "sessions/:id" none
sessions_route quote = reads "sessions/:id/quote" none
sessions_route extend = writes post "sessions/:id/extend" none "SESSION_EXTEND" "Session"
sessions_route end = writes post "sessions/:id/end" none "SESSION_END" "Session"
sessions_route cancel = writes post "sessions/:id/cancel" none "SESSION_CANCEL" "Session"

pub data NotificationsHandler : Type 0 where
  find_all mark_read mark_all_read : NotificationsHandler

unfoldable pub notifications_route : NotificationsHandler → Route
notifications_route find_all = reads "notifications" none
notifications_route mark_read = calls patch "notifications/:id/read" none
notifications_route mark_all_read = calls patch "notifications/read-all" none

pub data SettingsHandler : Type 0 where
  get_all set : SettingsHandler

unfoldable pub settings_route : SettingsHandler → Route
settings_route get_all = reads "settings" (only cashier)
settings_route set = writes put "settings" (only owner) "SETTING_UPDATE" "Setting"

pub data HealthHandler : Type 0 where
  live ready : HealthHandler

unfoldable pub health_route : HealthHandler → Route
health_route live = opens get "health"
health_route ready = opens get "health/ready"

-- Every handler. The analytics and the audit log have one each.
pub data Endpoint : Type 0 where
  of_auth : AuthHandler → Endpoint
  of_users : UsersHandler → Endpoint
  of_rooms : RoomsHandler → Endpoint
  of_computers : ComputersHandler → Endpoint
  of_customers : CustomersHandler → Endpoint
  of_debt : DebtHandler → Endpoint
  of_sessions : SessionsHandler → Endpoint
  of_notifications : NotificationsHandler → Endpoint
  of_settings : SettingsHandler → Endpoint
  of_health : HealthHandler → Endpoint
  analytics_summary audit_find_all : Endpoint

unfoldable pub route : Endpoint → Route
unfolding auth_route users_route rooms_route computers_route customers_route debt_route
    sessions_route notifications_route settings_route health_route
route (of_auth h) = auth_route h
route (of_users h) = users_route h
route (of_rooms h) = rooms_route h
route (of_computers h) = computers_route h
route (of_customers h) = customers_route h
route (of_debt h) = debt_route h
route (of_sessions h) = sessions_route h
route (of_notifications h) = notifications_route h
route (of_settings h) = settings_route h
route (of_health h) = health_route h
route analytics_summary = reads "analytics/summary" none
route audit_find_all = reads "audit-logs" none

-- `@Roles` of the class.
unfoldable pub class_roles : Endpoint → Option (List Role)
class_roles (of_users h) = only owner
class_roles (of_sessions h) = only cashier
class_roles (of_notifications h) = only cashier
class_roles analytics_summary = only manager
class_roles audit_find_all = only owner
class_roles _ = none
