-- ===== src/Common/Roles.antt =====
-- Roles and the guards of a route: src/common/enums/role.enum.ts, src/common/guards/roles.guard.ts
-- and src/common/guards/jwt-auth.guard.ts. What `jwt.verifyAsync` makes of a token is a parameter;
-- the metadata of a route is its list of roles and its public mark.
use gameclub_backend.Prelude.{
  ℕ, ◌≤◌, ◌≡◌, ◌↔◌, ◌⊎◌, Option, none, some, Bool, true, false, ◌||◌, String, List, [], ◌∷◌,
  if◌then◌else◌, arith,
}
use gameclub_backend.Common.Errors.{Result, ok, throw, unauthorized_exception, forbidden_exception}
use gameclub_backend.Entities.Staff.{Role, owner, manager, cashier}

-- `ROLE_HIERARCHY`.
unfoldable pub role_hierarchy : Role → List Role
role_hierarchy owner = owner ∷ manager ∷ cashier ∷ []
role_hierarchy manager = manager ∷ cashier ∷ []
role_hierarchy cashier = cashier ∷ []

abbrev pub same_role : Role → Role → Bool
same_role owner owner = true
same_role manager manager = true
same_role cashier cashier = true
same_role _ _ = false

-- `granted.includes(r)` and `required.some(…)`.
unfoldable pub includes : List Role → Role → Bool
includes [] r = false
includes (g ∷ granted) r = same_role g r || includes granted r

unfoldable pub any_granted : List Role → List Role → Bool
unfolding includes
any_granted granted [] = false
any_granted granted (r ∷ required) = includes granted r || any_granted granted required

-- `RolesGuard.canActivate`: the roles of the route, if it has any, and the role of the principal.
unfoldable pub roles_guard : Option (List Role) → Option Role → Result Bool
unfolding any_granted role_hierarchy
roles_guard none user = ok true
roles_guard (some []) user = ok true
roles_guard (some (r ∷ rs)) none = throw (forbidden_exception "Missing authenticated principal")
roles_guard (some (r ∷ rs)) (some role) =
    if any_granted (role_hierarchy role) (r ∷ rs)
    then ok true
    else throw (forbidden_exception "Insufficient role for this operation")

-- The header `authorization` after `Bearer `, if it starts so, and the cookie `access_token`.
pub record Credentials : Type 0 where
  pub bearer : Option String
  pub cookie : Option String

unfoldable pub extract_token : Credentials → Option String
extract_token c = elim c.bearer [ some t ↦ some t | none ↦ c.cookie ]

-- `!token`.
abbrev pub presented_token : Option String → Option String
presented_token none = none
presented_token (some String.[]) = none
presented_token (some (String.◌∷◌ c s)) = some (String.◌∷◌ c s)

-- `JwtAuthGuard.canActivate`: the principal that it attaches to the request, if any.
unfoldable pub jwt_auth_guard :
    {Claims : Type 0} → (String → Option Claims) → Bool → Credentials → Result (Option Claims)
unfolding extract_token
jwt_auth_guard verify true c = ok none
jwt_auth_guard verify false c = elim (presented_token (extract_token c)) [
  | none ↦ throw (unauthorized_exception "Authentication token is missing")
  | some token ↦ elim (verify token) [
    | none ↦ throw (unauthorized_exception "Invalid or expired access token")
    | some claims ↦ ok (some claims)
  ]
]

-- The rank of a role, which the comment of `Role` orders by privilege.
abbrev pub rank : Role → ℕ
rank owner = 2
rank manager = 1
rank cashier = 0

-- Some required role ranks no higher than the given one.
abbrev pub Reaches : Role → List Role → Type 0
Reaches role [] = ⊥
Reaches role (r ∷ required) = (rank r ≤ rank role) ⊎ Reaches role required

includes-rank : (role r : Role) → (includes (role_hierarchy role) r ≡ true) ↔ (rank r ≤ rank role)
unfolding includes role_hierarchy
includes-rank owner owner = ground arith
includes-rank owner manager = ground arith
includes-rank owner cashier = ground arith
includes-rank manager owner = ground arith
includes-rank manager manager = ground arith
includes-rank manager cashier = ground arith
includes-rank cashier owner = ground arith
includes-rank cashier manager = ground arith
includes-rank cashier cashier = ground arith

any_granted-Reaches :
    (role : Role) (required : List Role)
    → (any_granted (role_hierarchy role) required ≡ true) ↔ Reaches role required
unfolding any_granted
any_granted-Reaches role [] = (λ e. absurd (ground arith), λ h. absurd h)
any_granted-Reaches role (r ∷ required) =
    ground (arith, includes-rank role r, any_granted-Reaches role required)

-- A route that requires roles lets a principal pass exactly if the principal's role ranks at least
-- as high as one of them.
pub roles_guard-Reaches :
    (role r : Role) (rs : List Role)
    → (roles_guard (some (r ∷ rs)) (some role) ≡ ok true) ↔ Reaches role (r ∷ rs)
unfolding roles_guard
roles_guard-Reaches role r rs = ground (arith, any_granted-Reaches role (r ∷ rs))
