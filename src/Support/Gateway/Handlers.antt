-- ===== src/Support/Gateway/Handlers.antt =====
-- The messages that a socket sends, src/support-chat/support-chat.gateway.ts.
use backendurdubolonest.Base.{
  ℕ, Bool, true, false, Option, none, some, [], ◌∷◌, map, Text, trim, is_empty, map_where,
}
use backendurdubolonest.Prisma.{Prisma}
use backendurdubolonest.Http.{Action, ◌>>=◌, ◌>>◌, pure, gets, modify}
use backendurdubolonest.Auth.{AuthenticatedPrincipal}
use backendurdubolonest.Support.{SupportRuntime, PresentedMessage, is_staff}
use backendurdubolonest.Support.Conversations.{FreshConversation, get_my_conversation}
use backendurdubolonest.Support.Messages.{
  payload_of_text, send_user_message, send_admin_message, mark_seen, list_conversation_messages,
}
use backendurdubolonest.Support.Gateway.{
  Room, Event, Target, AuthedSocket, Live, is_socket, on_backend, emit, join_room, in_conversation,
  require_principal,
}

-- The identifiers that a message and, with it, a conversation may take.
pub record FreshMessage : Type 0 where
  pub conversation : FreshConversation
  pub message_id : ℕ

abbrev pub add_room : Room → AuthedSocket → AuthedSocket
add_room r k = record k { rooms_joined = r ∷ k.rooms_joined }

-- `emitMessage`, `emitConversationUpdated`, `emitSeen` and `emitDeleted`.
abbrev pub emit_message : ℕ → PresentedMessage → Action Live (Unit {0})
emit_message id m = in_conversation id (Event.message_received m)

abbrev pub emit_conversation_updated : ℕ → Action Live (Unit {0})
emit_conversation_updated id = in_conversation id (Event.conversation_updated id)

abbrev pub emit_seen : ℕ → ℕ → ℕ → Action Live (Unit {0})
emit_seen id user_id seen_at = in_conversation id (Event.message_seen id user_id seen_at)

abbrev pub emit_deleted : ℕ → PresentedMessage → Action Live (Unit {0})
emit_deleted id m = in_conversation id (Event.message_deleted m)

abbrev text_of_payload : Option Text → Text
text_of_payload none = []
text_of_payload (some t) = trim t

unfoldable pub typing : ℕ → ℕ → Action Live (Unit {0})
unfolding require_principal emit
typing client_id conversation_id = do
  principal ← require_principal client_id
  emit (Target.to_others (Room.conversation_room conversation_id) client_id)
      (Event.typing_event conversation_id principal.id)

unfoldable pub stop_typing : ℕ → ℕ → Action Live (Unit {0})
unfolding require_principal emit
stop_typing client_id conversation_id = do
  principal ← require_principal client_id
  emit (Target.to_others (Room.conversation_room conversation_id) client_id)
      (Event.stop_typing_event conversation_id principal.id)

module _ (db : Prisma) (env : SupportRuntime) where
  -- The conversation that is asked for, if the principal may read it, or the principal's own.
  abbrev pub joined_conversation :
      Option ℕ → AuthenticatedPrincipal → FreshConversation → ℕ → Action Live ℕ
  joined_conversation (some id) principal fresh now = do
    _ ← on_backend (list_conversation_messages db env id principal (record { page = 1; limit = 1 }))
    pure id
  joined_conversation none principal fresh now = do
    c ← on_backend (get_my_conversation db principal fresh now)
    pure c.row.id

  unfoldable pub join : ℕ → Option ℕ → FreshConversation → ℕ → Action Live ℕ
  unfolding require_principal on_backend join_room emit
  join client_id asked fresh now = do
    principal ← require_principal client_id
    id ← joined_conversation asked principal fresh now
    join_room client_id (Room.conversation_room id)
    modify λ live. record live {
      sockets = map_where (is_socket client_id) (add_room (Room.conversation_room id)) live.sockets;
    }
    users ← gets (λ live. map (λ (u : ℕ × ℕ). u.0) live.online_users)
    emit (Target.client client_id) (Event.joined id users)
    pure id

  abbrev pub sent_by :
      Bool
      → Option ℕ
      → AuthenticatedPrincipal
      → Text
      → FreshMessage
      → ℕ
      → Action Live PresentedMessage
  sent_by true (some id) principal text fresh now =
      on_backend
        (send_admin_message db env id principal (payload_of_text text) none fresh.message_id now)
  sent_by _ _ principal text fresh now = on_backend (
      send_user_message db env principal (payload_of_text text) none fresh.conversation
        fresh.message_id now)

  abbrev pub deliver :
      Text
      → Option ℕ
      → AuthenticatedPrincipal
      → FreshMessage
      → ℕ
      → Action Live (Option PresentedMessage)
  deliver text asked principal fresh now = do
    m ← sent_by (is_staff env principal) asked principal text fresh now
    emit_message m.row.conversation_id m
    emit_conversation_updated m.row.conversation_id
    pure (some m)

  abbrev pub deliver_unless :
      Bool
      → Text
      → Option ℕ
      → AuthenticatedPrincipal
      → FreshMessage
      → ℕ
      → Action Live (Option PresentedMessage)
  deliver_unless true text asked principal fresh now = pure none
  deliver_unless false text asked principal fresh now = deliver text asked principal fresh now

  -- `none` is the answer `Message is required`.
  unfoldable pub send_message :
      ℕ → Option ℕ → Option Text → FreshMessage → ℕ → Action Live (Option PresentedMessage)
  unfolding require_principal on_backend emit
  send_message client_id asked text fresh now = do
    principal ← require_principal client_id
    deliver_unless (is_empty (text_of_payload text)) (text_of_payload text) asked principal fresh
        now

  unfoldable pub seen : ℕ → ℕ → ℕ → Action Live (Unit {0})
  unfolding require_principal on_backend emit
  seen client_id conversation_id now = do
    principal ← require_principal client_id
    on_backend (mark_seen db env conversation_id principal now)
    emit_seen conversation_id principal.id now
