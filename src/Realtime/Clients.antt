-- ===== src/Realtime/Clients.antt =====
-- The sockets over time (src/modules/realtime/realtime.gateway.ts): a client is connected from its
-- arrival on, and `handleConnection` settles it later, when its token has been verified.
use gameclub_backend.Prelude.{
  ℕ, zero, suc, ◌≡◌, refl, ◌⊎◌, inl, inr, Option, none, some, Bool, true, false, List, [], ◌∷◌,
  ◌++◌, arith, if◌then◌else◌, Option-cases,
}
use gameclub_backend.Auth.{Claims}
use gameclub_backend.Events.{Envelope}
use gameclub_backend.Realtime.{
  Text, Handshake, Client, forwarded, unauthorized_error, arriving, emitted, extract_token,
  handle_connection,
}

pub data Happening : Type 0 where
  arrives : Handshake → Happening
  settles : ℕ → Happening
  emits : Envelope → Happening

pub record Socket : Type 0 where
  pub client : Client
  pub settled : Bool

module _ (decode : Text → Option Text) (verify : Text → Option Claims) where
  -- `handleConnection` runs once for a client.
  unfoldable pub settle : ℕ → List Socket → List Socket
  unfolding handle_connection
  settle i [] = []
  settle zero (s ∷ sockets) =
      (if s.settled
        then s
        else record { client = handle_connection decode verify s.client; settled = true })
      ∷ sockets
  settle (suc i) (s ∷ sockets) = s ∷ settle i sockets

  unfoldable pub forward : Envelope → List Socket → List Socket
  forward e [] = []
  forward e (s ∷ sockets) = record s { client = emitted e s.client } ∷ forward e sockets

  unfoldable pub happens : Happening → List Socket → List Socket
  unfolding settle forward
  happens (arrives h) sockets = sockets ++ record { client = arriving h; settled = false } ∷ []
  happens (settles i) sockets = settle i sockets
  happens (emits e) sockets = forward e sockets

  unfoldable pub history : List Happening → List Socket → List Socket
  unfolding happens
  history [] sockets = sockets
  history (h ∷ hs) sockets = history hs (happens h sockets)

  -- The token of a client's handshake verifies to these claims.
  abbrev pub Authenticates : Handshake → Claims → Type 0
  Authenticates h claims =
      (token : Text) × (extract_token decode h ≡ some token) × (verify token ≡ some claims)

  -- A socket is pending and bears no principal, or it was let in, into the room of its role, with
  -- a token that verifies, or it was refused and is disconnected.
  abbrev pub IsPending : Socket → Type 0
  IsPending s =
      (s.settled ≡ false)
      × (s.client.user ≡ none)
      × (s.client.rooms ≡ [])
      × (s.client.connected ≡ true)

  abbrev pub IsAdmitted : Client → Type 0
  IsAdmitted c =
      (claims : Claims) × (c.user ≡ some claims)
      × Authenticates c.handshake claims
      × (c.rooms ≡ claims.role ∷ [])

  abbrev pub IsRefused : Client → Type 0
  IsRefused c = (c.user ≡ none) × (c.rooms ≡ []) × (c.connected ≡ false)

  abbrev pub IsChecked : Socket → Type 0
  IsChecked s = IsPending s ⊎ ((s.settled ≡ true) × (IsAdmitted s.client ⊎ IsRefused s.client))

  abbrev pub AllChecked : List Socket → Type 0
  AllChecked [] = Unit {0}
  AllChecked (s ∷ sockets) = IsChecked s × AllChecked sockets

  handle_connection-checked :
      (c : Client)
      → c.user ≡ none
      → c.rooms ≡ []
      → IsAdmitted (handle_connection decode verify c)
        ⊎ IsRefused (handle_connection decode verify c)
  unfolding handle_connection
  handle_connection-checked c outside nowhere =
      elim (Option-cases (extract_token decode c.handshake)) [
        | inl e ↦ inr (ground arith)
        | inr (token, e) ↦ elim (Option-cases (verify token)) [
          | inl q ↦ inr (ground arith)
          | inr (claims, q) ↦ inl (claims, ground arith, (token, ground arith, q), ground arith)
        ]
      ]

  -- The socket that `settle` names, by whether it is settled.
  settle-IsChecked :
      (b : Bool) (s : Socket)
      → s.settled ≡ b
      → IsChecked s
      → IsChecked (
          if b
          then s
          else record { client = handle_connection decode verify s.client; settled = true })
  settle-IsChecked true s q h = h
  settle-IsChecked false s q (inl (p, outside, nowhere, on)) =
      inr (refl, handle_connection-checked s.client outside nowhere)
  settle-IsChecked false s q (inr (p, out)) = absurd (ground arith)

  emitted-IsChecked :
      (e : Envelope) (b : Bool) (s : Socket)
      → IsChecked s
      → IsChecked (record s {
        client =
            if b
            then record s.client { received = s.client.received ++ forwarded e ∷ [] }
            else s.client;
      })
  emitted-IsChecked e true s h = h
  emitted-IsChecked e false s h = h

  settle-AllChecked :
      (i : ℕ) (sockets : List Socket) → AllChecked sockets → AllChecked (settle i sockets)
  unfolding settle
  settle-AllChecked i [] h = tt
  settle-AllChecked zero (s ∷ sockets) h = (settle-IsChecked s.settled s refl h.0, h.1)
  settle-AllChecked (suc i) (s ∷ sockets) h = (h.0, settle-AllChecked i sockets h.1)

  forward-AllChecked :
      (e : Envelope) (sockets : List Socket) → AllChecked sockets → AllChecked (forward e sockets)
  unfolding forward
  forward-AllChecked e [] h = tt
  forward-AllChecked e (s ∷ sockets) h =
      (emitted-IsChecked e s.client.connected s h.0, forward-AllChecked e sockets h.1)

  arrive-AllChecked :
      (h : Handshake) (sockets : List Socket)
      → AllChecked sockets
      → AllChecked (sockets ++ record { client = arriving h; settled = false } ∷ [])
  arrive-AllChecked h [] all = (inl (refl, refl, refl, refl), tt)
  arrive-AllChecked h (s ∷ sockets) all = (all.0, arrive-AllChecked h sockets all.1)

  -- Whatever clients arrive, in whatever order their connections are settled and events are emitted,
  -- if every socket at the start is as follows, so is every socket at the end: it is pending,
  -- connected and without a principal; or it is settled and was let in, into the room of its role
  -- alone, with the claims to which the token of its handshake verifies; or it is settled, without
  -- a principal, and disconnected.
  pub history-AllChecked :
      (hs : List Happening) (sockets : List Socket)
      → AllChecked sockets
      → AllChecked (history hs sockets)
  unfolding history happens
  history-AllChecked [] sockets all = all
  history-AllChecked (arrives h ∷ hs) sockets all =
      history-AllChecked hs _ (arrive-AllChecked h sockets all)
  history-AllChecked (settles i ∷ hs) sockets all =
      history-AllChecked hs _ (settle-AllChecked i sockets all)
  history-AllChecked (emits e ∷ hs) sockets all =
      history-AllChecked hs _ (forward-AllChecked e sockets all)

  -- An event that is emitted between the arrival of a client and the verification of its token
  -- reaches it, whatever it brought: this one is refused, with the event in its hands.
  pub pending-receives :
      (h : Handshake) (e : Envelope)
      → extract_token decode h ≡ none
      → history (arrives h ∷ emits e ∷ settles 0 ∷ []) []
        ≡ record {
          client = record (arriving h) {
            received = forwarded e ∷ unauthorized_error ∷ [];
            connected = false;
          };
          settled = true;
        }
          ∷ []
  unfolding history happens settle forward handle_connection
  pending-receives h e q = ground arith
