-- ===== src/Routes.antt =====
-- The routes of the controllers (src/modules/*/*.controller.ts) with the metadata of their
-- decorators, and the guards that src/app.module.ts puts before them. What a handler does is the
-- operation of its service; the guard that counts requests is Nest's.
pub mod Table
pub mod Access
use gameclub_backend.Prelude.{Option, none, some, Bool, true, false, String, List, [], ◌∷◌}
use gameclub_backend.Common.Errors.{Result, ok, throw, ◌>>=◌, ◌>>◌}
use gameclub_backend.Common.Roles.{Credentials, jwt_auth_guard, roles_guard}
use gameclub_backend.Entities.Staff.{Role}
use gameclub_backend.Auth.{Claims}

pub data Method : Type 0 where
  get post put patch delete : Method

-- `AuditMetadata`.
pub record AuditMetadata : Type 0 where
  pub action : String
  pub entity : String

-- One handler: `@Get`, `@Roles`, `@Public` and `@Audited`.
pub record Route : Type 0 where
  pub method : Method
  pub path : String
  pub roles : Option (List Role)
  pub is_public : Bool
  pub audited : Option AuditMetadata

abbrev pub reads : String → Option (List Role) → Route
reads path roles = record {
  method = get;
  path = path;
  roles = roles;
  is_public = false;
  audited = none;
}

abbrev pub opens : Method → String → Route
opens method path = record {
  method = method;
  path = path;
  roles = none;
  is_public = true;
  audited = none;
}

abbrev pub calls : Method → String → Option (List Role) → Route
calls method path roles = record {
  method = method;
  path = path;
  roles = roles;
  is_public = false;
  audited = none;
}

abbrev pub writes : Method → String → Option (List Role) → String → String → Route
writes method path roles action entity = record {
  method = method;
  path = path;
  roles = roles;
  is_public = false;
  audited = some (record { action = action; entity = entity });
}

-- `reflector.getAllAndOverride`: the handler's metadata, or else the class's.
abbrev pub override : Option (List Role) → Option (List Role) → Option (List Role)
override none of_class = of_class
override (some roles) of_class = some roles

abbrev pub role_of : Option Claims → Option Role
role_of none = none
role_of (some c) = some c.role

-- The guards, one after the other: the principal that the handler sees, if any.
unfoldable pub enter :
    (String → Option Claims) → Option (List Role) → Route → Credentials → Result (Option Claims)
enter verify of_class route credentials = do
  user ← jwt_auth_guard verify route.is_public credentials
  roles_guard (override route.roles of_class) (role_of user) >>= λ may. ok user
