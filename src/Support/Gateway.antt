-- ===== src/Support/Gateway.antt =====
-- src/support-chat/support-chat.gateway.ts: the sockets, who is online, and what is emitted. The
-- library socket.io keeps which socket is in which room; here that is a list, beside the list of what
-- the handlers emit, the latest first.
pub mod Handlers
pub mod Presence
pub mod Steps
pub mod Reach
use backendurdubolonest.Base.{
  ℕ, ◌+◌, ◌-◌, Bool, true, false, not, ◌&&◌, Option, none, some, List, [], ◌∷◌, map, Text, codes,
  trim, drop, is_empty, is_some, ◌==◌, if◌then◌else◌, find, keep, map_where,
}
use backendurdubolonest.Prisma.{Prisma}
use backendurdubolonest.Http.{
  Error, Result, ok, err, internal, Action, ◌>>=◌, ◌>>◌, pure, raise, gets, or_raise, raise_if,
  modify, when,
}
use backendurdubolonest.Schema.{Backend}
use backendurdubolonest.Auth.{AuthenticatedPrincipal}
use backendurdubolonest.Support.{
  SupportRuntime, PresentedMessage, SupportMessageQueryDto, is_staff, has_prefix,
}
use backendurdubolonest.Support.Conversations.{
  FreshConversation, principal_from_token, get_my_conversation,
}
use backendurdubolonest.Support.Messages.{
  payload_of_text, send_user_message, send_admin_message, mark_seen, list_conversation_messages,
}

pub data Room : Type 0 where
  user_room conversation_room : ℕ → Room
  admins : Room

pub data Event : Type 0 where
  unauthorized_event : Event
  user_connected user_disconnected : ℕ → Event
  joined : ℕ → List ℕ → Event
  message_received message_deleted : PresentedMessage → Event
  conversation_updated : ℕ → Event
  message_seen : ℕ → ℕ → ℕ → Event
  typing_event stop_typing_event : ℕ → ℕ → Event

-- To all sockets, to one, to those in a room, or to those in a room except one.
pub data Target : Type 0 where
  everyone : Target
  client : ℕ → Target
  to_room : Room → Target
  to_others : Room → ℕ → Target

-- `client.data`, once the principal is known.
pub record AuthedSocket : Type 0 where
  pub id : ℕ
  pub principal : AuthenticatedPrincipal
  pub rooms_joined : List Room

pub record Handshake : Type 0 where
  pub auth_token : Option Text
  pub authorization : Option Text

pub record Live : Type 0 where
  pub backend : Backend
  -- The connected sockets that have a principal.
  pub sockets : List AuthedSocket
  -- `onlineUsers`: a user and the number of sockets.
  pub online_users : List (ℕ × ℕ)
  pub rooms : List (ℕ × Room)
  pub emitted : List (Target × Event)
  -- The sockets that a handler has closed.
  pub closed : List ℕ

abbrev pub is_socket : ℕ → AuthedSocket → Bool
is_socket id k = k.id == id

-- `Map.get`, `Map.delete` and `Map.set`.
abbrev pub online_count : ℕ → List (ℕ × ℕ) → Option ℕ
online_count user_id [] = none
online_count user_id ((u, n) ∷ us) = if u == user_id then some n else online_count user_id us

abbrev pub delete_count : ℕ → List (ℕ × ℕ) → List (ℕ × ℕ)
delete_count user_id [] = []
delete_count user_id ((u, n) ∷ us) =
    if u == user_id then delete_count user_id us else (u, n) ∷ delete_count user_id us

abbrev pub set_count : ℕ → ℕ → List (ℕ × ℕ) → List (ℕ × ℕ)
set_count user_id n us = (user_id, n) ∷ delete_count user_id us

abbrev pub or_zero : Option ℕ → ℕ
or_zero none = 0
or_zero (some n) = n

abbrev pub store_count : ℕ → ℕ → List (ℕ × ℕ) → List (ℕ × ℕ)
store_count user_id next us =
    if next == 0 then delete_count user_id us else set_count user_id next us

-- `trackOnline(userId, 1)`, and `trackOnline(userId, -1)`, where `Math.max(0, …)` is the subtraction
-- that stops at zero.
unfoldable pub track_on : ℕ → List (ℕ × ℕ) → List (ℕ × ℕ)
track_on user_id us = store_count user_id (or_zero (online_count user_id us) + 1) us

unfoldable pub track_off : ℕ → List (ℕ × ℕ) → List (ℕ × ℕ)
track_off user_id us = store_count user_id (or_zero (online_count user_id us) - 1) us

-- The gateway between two events: beside what it keeps, the sockets whose `handleConnection` awaits
-- the principal, with the answer that it will get.
pub record Gateway : Type 0 where
  pub live : Live
  pub waiting : List (ℕ × Option AuthenticatedPrincipal)

abbrev pub is_waiting : ℕ → ℕ × Option AuthenticatedPrincipal → Bool
is_waiting id w = w.0 == id

abbrev lift_result : {A : Type 0} → Live → Result A × Backend → Result A × Live
lift_result live (v, s) = (v, record live { backend = s })

-- An operation of the service; of what the gateway keeps it changes the backend alone.
unfoldable pub on_backend : {A : Type 0} → Action Backend A → Action Live A
on_backend m live = lift_result live (m live.backend)

unfoldable pub emit : Target → Event → Action Live (Unit {0})
emit target event = modify λ live. record live { emitted = (target, event) ∷ live.emitted }

unfoldable pub join_room : ℕ → Room → Action Live (Unit {0})
join_room id room = modify λ live. record live { rooms = (id, room) ∷ live.rooms }

unfoldable pub disconnect : ℕ → Action Live (Unit {0})
disconnect id = modify λ live. record live { closed = id ∷ live.closed }

-- `header.slice(7).trim()` after the prefix `bearer `
abbrev bearer : Option Text → Option Text
bearer none = none
bearer (some header) =
    if has_prefix (codes "bearer ") header then some (trim (drop 7 header)) else none

abbrev own_token : Option Text → Option Text
own_token none = none
own_token (some token) = if is_empty (trim token) then none else some (trim token)

unfoldable pub extract_token : Handshake → Option Text
extract_token h = elim (own_token h.auth_token) [ none ↦ bearer h.authorization | some t ↦ some t ]

abbrev pub in_conversation : ℕ → Event → Action Live (Unit {0})
in_conversation id event = do
  emit (Target.to_room (Room.conversation_room id)) event
  emit (Target.to_room Room.admins) event

abbrev claims_of : (Text → Option (ℕ × ℕ)) → Option Text → Option (ℕ × ℕ)
claims_of verify none = none
claims_of verify (some token) = if is_empty token then none else verify token

abbrev pub principal_of : Option AuthedSocket → Option AuthenticatedPrincipal
principal_of none = none
principal_of (some k) = some k.principal

-- The principal of a socket; a socket without one is closed.
unfoldable pub require_principal : ℕ → Action Live AuthenticatedPrincipal
unfolding disconnect
require_principal id = do
  found ← gets (λ live. principal_of (find (is_socket id) live.sockets))
  when (not (is_some found)) (disconnect id)
  or_raise (internal "Unauthorized") found

-- What a connection does once the token is looked up.
abbrev pub connected : SupportRuntime → ℕ → AuthenticatedPrincipal → Action Live (Unit {0})
connected env id principal = do
  modify λ live. record live {
    sockets = record { id = id; principal = principal; rooms_joined = [] } ∷ live.sockets;
    online_users = track_on principal.id live.online_users;
  }
  join_room id (Room.user_room principal.id)
  when (is_staff env principal) (join_room id Room.admins)
  emit Target.everyone (Event.user_connected principal.id)

abbrev pub connect : SupportRuntime → ℕ → Option AuthenticatedPrincipal → Action Live (Unit {0})
connect env id none = do emit (Target.client id) Event.unauthorized_event; disconnect id
connect env id (some principal) = connected env id principal

abbrev pub left : ℕ → Option AuthenticatedPrincipal → Action Live (Unit {0})
left id none = pure tt
left id (some principal) = do
  modify λ live. record live {
    sockets = keep (λ k. not (is_socket id k)) live.sockets;
    online_users = track_off principal.id live.online_users;
    rooms = keep (λ r. not (r.0 == id)) live.rooms;
  }
  still ← gets (λ live. is_some (online_count principal.id live.online_users))
  when (not still) (emit Target.everyone (Event.user_disconnected principal.id))

-- `handleDisconnect`, after which socket.io forgets the socket and its rooms.
unfoldable pub handle_disconnect : ℕ → Action Live (Unit {0})
unfolding track_off emit
handle_disconnect id = do
  found ← gets (λ live. principal_of (find (is_socket id) live.sockets))
  left id found

abbrev awaits :
    ℕ
    → List (ℕ × Option AuthenticatedPrincipal)
    → Result (Option AuthenticatedPrincipal) × Live
    → Gateway
awaits id waiting (ok principal, live) = record { live = live; waiting = (id, principal) ∷ waiting }
awaits id waiting (err e, live) = record { live = live; waiting = waiting }

-- `handleConnection` after its `await`.
unfoldable pub connection_resumes :
    SupportRuntime → ℕ → Option AuthenticatedPrincipal → Gateway → Gateway
unfolding track_on join_room emit disconnect
connection_resumes env id principal g = record {
  live = (connect env id principal g.live).1;
  waiting = keep (λ w. not (is_waiting id w)) g.waiting;
}

module _ (db : Prisma) where
  -- The token is verified by @nestjs/jwt.
  unfoldable pub look_up_principal :
      (Text → Option (ℕ × ℕ)) → Handshake → ℕ → Action Live (Option AuthenticatedPrincipal)
  unfolding extract_token on_backend principal_from_token
  look_up_principal verify h now =
      on_backend (principal_from_token db (claims_of verify (extract_token h)) now)

  -- `handleConnection` up to its `await`; if the look-up fails, nothing comes after it.
  unfoldable pub connection_begins : (Text → Option (ℕ × ℕ)) → ℕ → Handshake → ℕ → Gateway → Gateway
  unfolding look_up_principal
  connection_begins verify id h now g = awaits id g.waiting (look_up_principal verify h now g.live)
