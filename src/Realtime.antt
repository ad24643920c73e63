-- ===== src/Realtime.antt =====
-- src/modules/realtime/realtime.gateway.ts: who may connect to the socket, and the events that are
-- forwarded to those that have. Texts are lists of character codes. What `jwt.verifyAsync` makes of
-- a token and what `decodeURIComponent` makes of a text are parameters.

pub mod Clients
use gameclub_backend.Prelude.{
  ℕ, zero, suc, ◌+◌, Option, none, some, Bool, true, false, not, ◌&&◌, ◌||◌, String, List, [], ◌∷◌,
  ◌++◌, leb, ◌==◌, if◌then◌else◌, codes, is_space,
}
use gameclub_backend.Auth.{Claims}
use gameclub_backend.Entities.Staff.{Role}
use gameclub_backend.Events.{Envelope}

abbrev pub Text : Type 0
Text = List ℕ

-- `handshake.auth.token`: absent, a text, or what else a client may send.
pub data AuthToken : Type 0 where
  no_token : AuthToken
  text : Text → AuthToken
  truthy_value falsy_value : AuthToken

pub record Handshake : Type 0 where
  pub auth_token : AuthToken
  pub authorization : Option Text
  pub cookie : Option Text

abbrev pub lower : ℕ → ℕ
lower c = if leb 65 c && leb c 90 then c + 32 else c

-- The text after a prefix, if it starts with it; the prefix in lower case matches both cases.
unfoldable pub after : (ℕ → ℕ) → Text → Text → Option Text
after fold [] t = some t
after fold (p ∷ ps) [] = none
after fold (p ∷ ps) (c ∷ t) = if fold c == p then after fold ps t else none

unfoldable pub drop_spaces : Text → Text
drop_spaces [] = []
drop_spaces (c ∷ t) = if is_space c then drop_spaces t else c ∷ t

-- `replace(/^Bearer\s+/i, '')`.
unfoldable pub strip_bearer : Text → Text
unfolding after drop_spaces
strip_bearer t = elim (after lower (codes "bearer") t) [
  | some (c ∷ rest) ↦ if is_space c then drop_spaces rest else t
  | _ ↦ t
]

-- `[^;]+`.
unfoldable pub until_semicolon : Text → Text
until_semicolon [] = []
until_semicolon (c ∷ t) = if c == b';' then [] else c ∷ until_semicolon t

-- `cookie.match(/access_token=([^;]+)/)`: the first place where it matches.
unfoldable pub match_cookie : Text → Option Text
unfolding after until_semicolon
match_cookie [] = none
match_cookie (c ∷ t) =
    let later = match_cookie t in
    elim (after (λ d. d) (codes "access_token=") (c ∷ t)) [
      | none ↦ later
      | some rest ↦ elim (until_semicolon rest) [ [] ↦ later | (d ∷ more) ↦ some (d ∷ more) ]
    ]

abbrev pub or_nothing : Option Text → Text
or_nothing none = []
or_nothing (some t) = t

abbrev pub from_cookie : (Text → Option Text) → Option Text → Option Text
from_cookie decode cookie = elim (match_cookie (or_nothing cookie)) [
  | none ↦ none
  | some t ↦ decode t
]

abbrev pub from_header : (Text → Option Text) → Handshake → Option Text
from_header decode h = elim h.authorization [
  | none ↦ from_cookie decode h.cookie
  | some header ↦ elim (after (λ d. d) (codes "Bearer ") header) [
    | some t ↦ some t
    | none ↦ from_cookie decode h.cookie
  ]
]

-- `extractToken`; `none` is an error that it throws.
unfoldable pub extract_token : (Text → Option Text) → Handshake → Option Text
unfolding strip_bearer match_cookie
extract_token decode h = elim h.auth_token [
  | text (c ∷ t) ↦ some (strip_bearer (c ∷ t))
  | text [] ↦ from_header decode h
  | truthy_value ↦ none
  | falsy_value ↦ from_header decode h
  | no_token ↦ from_header decode h
]

pub data Signal : Type 0 where
  unauthorized_error : Signal
  forwarded : Envelope → Signal

-- A client of the socket: its principal, its rooms, what it was sent, and whether it is connected.
pub record Client : Type 0 where
  pub handshake : Handshake
  pub user : Option Claims
  pub rooms : List Role
  pub received : List Signal
  pub connected : Bool

abbrev pub arriving : Handshake → Client
arriving h = record { handshake = h; user = none; rooms = []; received = []; connected = true }

-- `client.emit('error', …); client.disconnect(true)`.
abbrev pub refused : Client → Client
refused c = record c { received = c.received ++ unauthorized_error ∷ []; connected = false }

-- `handleConnection`.
unfoldable pub handle_connection : (Text → Option Text) → (Text → Option Claims) → Client → Client
unfolding extract_token
handle_connection decode verify c = elim (extract_token decode c.handshake) [
  | none ↦ refused c
  | some token ↦ elim (verify token) [
    | none ↦ refused c
    | some claims ↦ record c { user = some claims; rooms = c.rooms ++ claims.role ∷ [] }
  ]
]

-- `server.emit`, for one client.
abbrev pub emitted : Envelope → Client → Client
emitted e c = if c.connected then record c { received = c.received ++ forwarded e ∷ [] } else c

-- `broadcast`: the server emits to every client that is connected; before it is there, nothing.
unfoldable pub broadcast : Bool → Envelope → List Client → List Client
broadcast false e clients = clients
broadcast true e [] = []
broadcast true e (c ∷ clients) = emitted e c ∷ broadcast true e clients
