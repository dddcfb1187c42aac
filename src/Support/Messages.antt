-- ===== src/Support/Messages.antt =====
-- Messages of src/support-chat/support-chat.service.ts.
use backendurdubolonest.Base.{
  ℕ, ◌+◌, Bool, true, false, not, ◌&&◌, Option, none, some, List, [], ◌∷◌, map, String, Text, codes,
  trim, leb, ◌==◌, if◌then◌else◌, is_some, is_empty,
}
use backendurdubolonest.Prisma.{Prisma}
use backendurdubolonest.Http.{
  bad_request, not_found, p2025, Action, ◌>>=◌, ◌>>◌, pure, gets, or_raise, raise_if, transaction,
}
use backendurdubolonest.Schema.{
  Backend, success, SupportConversation, SupportConversationStatus, SupportMessage,
  SupportMessageSenderType, SupportMessageType, SupportMessageStatus,
}
use backendurdubolonest.Auth.{AuthenticatedPrincipal}
use backendurdubolonest.Audit.{audit_input, write_audit}
use backendurdubolonest.Support.{
  CreateSupportMessageDto, SupportMessageQueryDto, PresentedMessage, is_user_sender,
  is_admin_sender, is_seen, present_message, update_messages,
}
use backendurdubolonest.Support.Conversations.{FreshConversation, ensure_conversation_for_user}
use backendurdubolonest.Support.Inbox.{pages, page_of}
use backendurdubolonest.Support.{
  SupportRuntime, is_staff, assert_staff, update_conversation, insert_message, require_conversation,
  non_empty,
}

-- `typeof input === 'string' ? { text: input } : input`
abbrev pub payload_of_text : Text → CreateSupportMessageDto
payload_of_text text = record {
  text = some text;
  message = none;
  message_type = none;
  media_url = none;
  thumbnail = none;
  mime_type = none;
  original_name = none;
  file_size = none;
  voice_duration = none;
  reply_to_message_id = none;
}

abbrev type_text : SupportMessageType → Text
type_text SupportMessageType.text = codes "TEXT"
type_text SupportMessageType.image = codes "IMAGE"
type_text SupportMessageType.video = codes "VIDEO"
type_text SupportMessageType.voice = codes "VOICE"
type_text SupportMessageType.file = codes "FILE"
type_text SupportMessageType.system = codes "SYSTEM"

abbrev or_default : {A : Type 0} → Option A → A → A
or_default none a = a
or_default (some b) a = b

abbrev or_else : {A : Type 0} → Option A → Option A → Option A
or_else none b = b
or_else (some a) b = some a

-- `payload.messageType ?? (payload.mediaUrl ? 'FILE' : 'TEXT')`
abbrev pub message_type_of : CreateSupportMessageDto → SupportMessageType
message_type_of dto =
    or_default dto.message_type (
      if is_some (non_empty dto.media_url)
      then SupportMessageType.file
      else SupportMessageType.text)

-- `(payload.text ?? payload.message ?? '').trim()`
abbrev pub text_of : CreateSupportMessageDto → Text
text_of dto = trim (or_default (or_else dto.text dto.message) [])

-- `text || payload.originalName || messageType`
abbrev pub shown_text : CreateSupportMessageDto → Text
shown_text dto =
    or_default (or_else (non_empty (some (text_of dto))) (non_empty dto.original_name))
      (type_text (message_type_of dto))

abbrev positive : Option ℕ → Option ℕ
positive none = none
positive (some n) = if n == 0 then none else some n

abbrev pub new_message :
    ℕ → ℕ → ℕ → SupportMessageSenderType → CreateSupportMessageDto → ℕ → SupportMessage
new_message id conversation_id sender_id sender_type dto now = record {
  id = id;
  conversation_id = conversation_id;
  sender_type = sender_type;
  sender_id = some sender_id;
  message_type = message_type_of dto;
  text = some (shown_text dto);
  media_url = dto.media_url;
  thumbnail = dto.thumbnail;
  voice_duration = dto.voice_duration;
  file_size = positive dto.file_size;
  mime_type = dto.mime_type;
  reply_to_message_id = none;
  status = SupportMessageStatus.delivered;
  delivered_at = some now;
  seen_at = none;
  deleted_by_user = false;
  deleted_by_admin = false;
  created_at = now;
}

-- What a message changes in its conversation; `undefined` leaves a column alone.
abbrev pub with_message :
    ℕ → ℕ → SupportMessageSenderType → ℕ → SupportConversation → SupportConversation
with_message id actor_id sender_type now c = record c {
  assigned_admin_id = if is_admin_sender sender_type then some actor_id else c.assigned_admin_id;
  status =
      if is_user_sender sender_type
      then SupportConversationStatus.waiting
      else SupportConversationStatus.open_state;
  last_message_id = some id;
  last_message_at = some now;
  admin_unread_count =
      if is_user_sender sender_type then c.admin_unread_count + 1 else c.admin_unread_count;
  user_unread_count =
      if is_admin_sender sender_type then c.user_unread_count + 1 else c.user_unread_count;
}

pub record MessagePage : Type 0 where
  pub items : List PresentedMessage
  pub total : ℕ
  pub total_pages : ℕ

abbrev pub is_shown : Bool → ℕ → SupportMessage → Bool
is_shown staff conversation_id m =
    m.conversation_id == conversation_id
    && (if staff then not m.deleted_by_admin else not m.deleted_by_user)

abbrev pub is_newer : SupportMessage → SupportMessage → Bool
is_newer a b = leb b.created_at a.created_at

abbrev pub reverse_onto {ℓ} : {A : Type ℓ} → List A → List A → List A
reverse_onto done [] = done
reverse_onto done (x ∷ xs) = reverse_onto (x ∷ done) xs

abbrev pub is_unseen_of : ℕ → Bool → SupportMessage → Bool
is_unseen_of conversation_id by_user m =
    m.conversation_id == conversation_id
    && ((if by_user then is_user_sender m.sender_type else is_admin_sender m.sender_type)
        && not (is_seen m.status))

-- The request identifier is given by the controllers and left out by the gateway.
abbrev pub audited :
    Prisma → AuthenticatedPrincipal → String → ℕ → Option ℕ → Action Backend (Unit {0})
audited db actor action conversation_id none = pure tt
audited db actor action conversation_id (some request_id) = write_audit db (
    audit_input (some actor.id) action "support_conversation" (some conversation_id) success
      request_id)

abbrev pub with_seen : Bool → ℕ → SupportConversation → SupportConversation
with_seen staff now c =
    if staff
    then record c { admin_unread_count = 0; admin_last_seen_at = some now }
    else record c { user_unread_count = 0; user_last_seen_at = some now }

abbrev pub hidden : Bool → SupportMessage → SupportMessage
hidden staff m =
    if staff then record m { deleted_by_admin = true } else record m { deleted_by_user = true }

module _ (db : Prisma) (env : SupportRuntime) where
  unfoldable pub create_message_rows :
      ℕ
      → AuthenticatedPrincipal
      → SupportMessageSenderType
      → CreateSupportMessageDto
      → ℕ
      → ℕ
      → Action Backend (Unit {0})
  unfolding insert_message update_conversation
  create_message_rows conversation_id actor sender_type dto id now = do
    insert_message db (new_message id conversation_id actor.id sender_type dto now)
    update_conversation db conversation_id (with_message id actor.id sender_type now)

  unfoldable pub create_message :
      ℕ
      → AuthenticatedPrincipal
      → SupportMessageSenderType
      → CreateSupportMessageDto
      → ℕ
      → ℕ
      → Action Backend PresentedMessage
  unfolding create_message_rows
  create_message conversation_id actor sender_type dto id now = do
    raise_if (is_empty (text_of dto) && not (is_some (non_empty dto.media_url)))
        (bad_request "Message text or media is required")
    transaction (create_message_rows conversation_id actor sender_type dto id now)
    gets (present_message db env (new_message id conversation_id actor.id sender_type dto now))

  unfoldable pub send_user_message :
      AuthenticatedPrincipal
      → CreateSupportMessageDto
      → Option ℕ
      → FreshConversation
      → ℕ
      → ℕ
      → Action Backend PresentedMessage
  unfolding ensure_conversation_for_user create_message
  send_user_message actor dto request_id fresh id now = do
    c ← ensure_conversation_for_user db actor.id fresh now
    m ← create_message c.id actor SupportMessageSenderType.user dto id now
    audited db actor "support.message_user_create" c.id request_id
    pure m

  unfoldable pub send_admin_message :
      ℕ
      → AuthenticatedPrincipal
      → CreateSupportMessageDto
      → Option ℕ
      → ℕ
      → ℕ
      → Action Backend PresentedMessage
  unfolding assert_staff require_conversation create_message
  send_admin_message conversation_id actor dto request_id id now = do
    assert_staff env actor
    c ← require_conversation db env conversation_id actor
    m ← create_message c.id actor SupportMessageSenderType.admin dto id now
    audited db actor "support.message_admin_create" c.id request_id
    pure m

  unfoldable pub mark_seen_rows : ℕ → Bool → ℕ → Action Backend (Unit {0})
  unfolding update_messages update_conversation
  mark_seen_rows conversation_id staff now = do
    _ ←
        update_messages db (is_unseen_of conversation_id staff)
          (λ m. record m { status = SupportMessageStatus.seen; seen_at = some now })
    update_conversation db conversation_id (with_seen staff now)

  unfoldable pub mark_seen : ℕ → AuthenticatedPrincipal → ℕ → Action Backend (Unit {0})
  unfolding require_conversation mark_seen_rows
  mark_seen conversation_id actor now = do
    c ← require_conversation db env conversation_id actor
    transaction (mark_seen_rows c.id (is_staff env actor) now)

  unfoldable pub delete_message : ℕ → AuthenticatedPrincipal → Action Backend PresentedMessage
  unfolding require_conversation update_messages
  delete_message message_id actor = do
    found ← gets (λ s. db.find_first (λ m. m.id == message_id) s.support_messages)
    m ← or_raise (not_found "Message not found") found
    _ ← require_conversation db env m.conversation_id actor
    changed ← update_messages db (λ x. x.id == message_id) (hidden (is_staff env actor))
    raise_if (changed == 0) p2025
    gets (present_message db env (hidden (is_staff env actor) m))

  abbrev pub message_page : ℕ → Bool → SupportMessageQueryDto → Backend → MessagePage
  message_page conversation_id staff query s = record {
    items =
        map (λ m. present_message db env m s)
          (reverse_onto [] (
            page_of query.page query.limit (
              db.order_by is_newer
                (db.find_many (is_shown staff conversation_id) s.support_messages))));
    total = db.count_rows (is_shown staff conversation_id) s.support_messages;
    total_pages =
        pages (db.count_rows (is_shown staff conversation_id) s.support_messages) query.limit;
  }

  unfoldable pub list_conversation_messages :
      ℕ → AuthenticatedPrincipal → SupportMessageQueryDto → Action Backend MessagePage
  unfolding require_conversation
  list_conversation_messages conversation_id actor query = do
    c ← require_conversation db env conversation_id actor
    gets (message_page c.id (is_staff env actor) query)

  unfoldable pub list_my_messages :
      AuthenticatedPrincipal
      → SupportMessageQueryDto
      → FreshConversation
      → ℕ
      → Action Backend MessagePage
  unfolding ensure_conversation_for_user list_conversation_messages
  list_my_messages actor query fresh now = do
    c ← ensure_conversation_for_user db actor.id fresh now
    list_conversation_messages c.id actor query
