-- ===== src/Support/Gateway/Reach.antt =====
-- Any sequence of connections, disconnections and messages at the gateway of the support chat, and who
-- is online after it.
use backendurdubolonest.Base.{ℕ, ◌≡◌, false, Option, any, count, Among, Text}
use backendurdubolonest.Prisma.{Prisma}
use backendurdubolonest.Support.Gateway.Handlers.{
  FreshMessage, typing, stop_typing, join, send_message, seen,
}
use backendurdubolonest.Auth.{AuthenticatedPrincipal}
use backendurdubolonest.Support.{SupportRuntime}
use backendurdubolonest.Support.Conversations.{FreshConversation}
use backendurdubolonest.Support.Gateway.{
  Live, Gateway, Handshake, is_socket, is_waiting, handle_disconnect, connection_begins,
  connection_resumes,
}
use backendurdubolonest.Support.Gateway.Presence.{IsPresent}
use backendurdubolonest.Support.Gateway.Steps.{
  IsPresent-connection_begins, IsPresent-connection_resumes, IsPresent-handle_disconnect,
  Keeps-typing, Keeps-stop_typing, Keeps-join, Keeps-send_message, Keeps-seen,
}

-- The event changes what the gateway keeps, and no socket begins or ends to wait.
abbrev pub with_live : Gateway → Live → Gateway
with_live g live = record g { live = live }

-- One event at the gateway, whatever its handler ends with. A connection is two events, before and
-- after the principal is awaited, and any events may come between them, with one exception: a socket
-- that waits for its principal does not disconnect. A socket that enters has an identifier that no
-- connected socket has. What `join`, `message` and `seen` await does not matter to the counts, which
-- these handlers never change.
pub data GatewayStep (db : Prisma) (env : SupportRuntime) : Gateway → Gateway → Type 0 where
  connection_begins_step :
      (verify : Text → Option (ℕ × ℕ)) (id : ℕ) (h : Handshake) (now : ℕ) (g : Gateway)
      → GatewayStep db env g (connection_begins db verify id h now g)
  connection_resumes_step :
      (id : ℕ) (p : Option AuthenticatedPrincipal) (g : Gateway)
      → Among (id, p) g.waiting
      → count (is_socket id) g.live.sockets ≡ 0
      → GatewayStep db env g (connection_resumes env id p g)
  disconnect_step :
      (id : ℕ) (g : Gateway)
      → any (is_waiting id) g.waiting ≡ false
      → GatewayStep db env g (with_live g (handle_disconnect id g.live).1)
  join_step :
      (id : ℕ) (asked : Option ℕ) (fresh : FreshConversation) (now : ℕ) (g : Gateway)
      → GatewayStep db env g (with_live g (join db env id asked fresh now g.live).1)
  message_step :
      (id : ℕ) (asked : Option ℕ) (text : Option Text) (fresh : FreshMessage) (now : ℕ)
      (g : Gateway)
      → GatewayStep db env g (with_live g (send_message db env id asked text fresh now g.live).1)
  typing_step :
      (id cid : ℕ) (g : Gateway) → GatewayStep db env g (with_live g (typing id cid g.live).1)
  stop_typing_step :
      (id cid : ℕ) (g : Gateway) → GatewayStep db env g (with_live g (stop_typing id cid g.live).1)
  seen_step :
      (id cid now : ℕ) (g : Gateway)
      → GatewayStep db env g (with_live g (seen db env id cid now g.live).1)

-- Any sequence of events.
pub data GatewayReach (db : Prisma) (env : SupportRuntime) : Gateway → Gateway → Type 0 where
  start : (g : Gateway) → GatewayReach db env g g
  more :
      {s t u : Gateway} → GatewayReach db env s t → GatewayStep db env t u → GatewayReach db env s u

module _ (db : Prisma) (env : SupportRuntime) where
  GatewayStep-IsPresent :
      (s t : Gateway) → GatewayStep db env s t → IsPresent s.live → IsPresent t.live
  GatewayStep-IsPresent _ _ (GatewayStep.connection_begins_step verify id h now s) k =
      IsPresent-connection_begins db verify id h now s k
  GatewayStep-IsPresent _ _ (GatewayStep.connection_resumes_step id p s there new) k =
      IsPresent-connection_resumes env id p s (k, new)
  GatewayStep-IsPresent _ _ (GatewayStep.disconnect_step id s settled) k =
      IsPresent-handle_disconnect id s.live k
  GatewayStep-IsPresent _ _ (GatewayStep.join_step id asked fresh now s) k =
      (Keeps-join db env id asked fresh now).at s.live k
  GatewayStep-IsPresent _ _ (GatewayStep.message_step id asked text fresh now s) k =
      (Keeps-send_message db env id asked text fresh now).at s.live k
  GatewayStep-IsPresent _ _ (GatewayStep.typing_step id cid s) k = (Keeps-typing id cid).at s.live k
  GatewayStep-IsPresent _ _ (GatewayStep.stop_typing_step id cid s) k =
      (Keeps-stop_typing id cid).at s.live k
  GatewayStep-IsPresent _ _ (GatewayStep.seen_step id cid now s) k =
      (Keeps-seen db env id cid now).at s.live k

-- Whatever sequence of connections, disconnections and messages the gateway handles, provided that no
-- socket disconnects while `handleConnection` awaits its principal, and that a socket enters under an
-- identifier that no connected socket has: if `onlineUsers` holds, for every user, the number of the
-- user's connected sockets, with no entry for a user who has none, and no two sockets have one
-- identifier, then this is so after it. Other events may come between the two halves of a connection.
pub GatewayReach-IsPresent :
    (db : Prisma) (env : SupportRuntime) (s t : Gateway)
    → GatewayReach db env s t
    → IsPresent s.live
    → IsPresent t.live
GatewayReach-IsPresent db env _ _ (GatewayReach.start s) h = h
GatewayReach-IsPresent db env s u (GatewayReach.more {t = t} reach step) h =
    GatewayStep-IsPresent db env t u step (GatewayReach-IsPresent db env s t reach h)
