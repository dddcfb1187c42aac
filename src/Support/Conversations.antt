-- ===== src/Support/Conversations.antt =====
-- Conversations of src/support-chat/support-chat.service.ts: who is speaking, the conversation of a
-- user, the inbox and its numbers, and the status.
use backendurdubolonest.Base.{
  ℕ, Bool, false, ◌&&◌, ◌||◌, Option, none, some, Text, codes, ◌==◌, is_none,
}
use backendurdubolonest.Prisma.{Prisma}
use backendurdubolonest.Http.{
  Result, ok, err, p2002, Action, ◌>>=◌, ◌>>◌, pure, gets, or_raise, modify, transaction,
}
use backendurdubolonest.Schema.{
  Backend, SupportConversation, SupportConversationStatus, SupportMessage, SupportMessageSenderType,
  SupportMessageType, SupportMessageStatus,
}
use backendurdubolonest.Auth.{AuthenticatedPrincipal}
use backendurdubolonest.Auth.Sessions.{validate}
use backendurdubolonest.Support.{
  PresentedConversation, present_conversation, update_conversation, insert_message,
}

abbrev welcome_text : Text
welcome_text = codes "Welcome to Urdu Bolo Support.\nHow can we help you today?"

-- The new identifiers of a conversation and of its first message.
pub record FreshConversation : Type 0 where
  pub conversation_id : ℕ
  pub message_id : ℕ

-- The unique columns of `support_conversations`.
abbrev pub conversation_clash : SupportConversation → SupportConversation → Bool
conversation_clash a b = a.id == b.id || a.user_id == b.user_id

abbrev pub is_live : SupportConversation → Bool
is_live c = is_none c.deleted_at

abbrev pub new_conversation : ℕ → ℕ → ℕ → SupportConversation
new_conversation id user_id now = record {
  id = id;
  user_id = user_id;
  assigned_admin_id = none;
  status = SupportConversationStatus.open_state;
  last_message_id = none;
  last_message_at = none;
  user_unread_count = 0;
  admin_unread_count = 0;
  user_last_seen_at = none;
  admin_last_seen_at = none;
  created_at = now;
  deleted_at = none;
}

abbrev pub welcome : ℕ → ℕ → ℕ → SupportMessage
welcome id conversation_id now = record {
  id = id;
  conversation_id = conversation_id;
  sender_type = SupportMessageSenderType.system;
  sender_id = none;
  message_type = SupportMessageType.system;
  text = some welcome_text;
  media_url = none;
  thumbnail = none;
  voice_duration = none;
  file_size = none;
  mime_type = none;
  reply_to_message_id = none;
  status = SupportMessageStatus.delivered;
  delivered_at = some now;
  seen_at = none;
  deleted_by_user = false;
  deleted_by_admin = false;
  created_at = now;
}

abbrev pub is_open_of : ℕ → SupportConversation → Bool
is_open_of user_id c = c.user_id == user_id && is_none c.deleted_at

abbrev pub or_null :
    Result AuthenticatedPrincipal × Backend → Result (Option AuthenticatedPrincipal) × Backend
or_null (ok p, s) = (ok (some p), s)
or_null (err e, s) = (ok none, s)

module _ (db : Prisma) where
  -- `principalFromToken`, given the claims `sub` and `sid` where the token is accepted; the query and
  -- the tests are those of `validate`, and any exception gives `null`.
  unfoldable pub principal_from_token :
      Option (ℕ × ℕ) → ℕ → Action Backend (Option AuthenticatedPrincipal)
  unfolding validate
  principal_from_token none now = pure none
  principal_from_token (some (sub, sid)) now = λ s. or_null (validate db sub sid now s)

  unfoldable pub create_conversation : SupportConversation → Action Backend (Unit {0})
  create_conversation row = do
    table ← gets (λ s. s.support_conversations)
    grown ← or_raise p2002 (db.create conversation_clash row table)
    modify (λ s. record s { support_conversations = grown })

  -- The transaction that opens a conversation with the message of welcome.
  unfoldable pub open_conversation : ℕ → FreshConversation → ℕ → Action Backend SupportConversation
  unfolding create_conversation insert_message update_conversation
  open_conversation user_id fresh now = do
    create_conversation (new_conversation fresh.conversation_id user_id now)
    insert_message db (welcome fresh.message_id fresh.conversation_id now)
    update_conversation db fresh.conversation_id
        (λ c. record c { last_message_id = some fresh.message_id; last_message_at = some now })
    pure (record (new_conversation fresh.conversation_id user_id now) {
      last_message_id = some fresh.message_id;
      last_message_at = some now;
    })

  abbrev pub or_open :
      ℕ → FreshConversation → ℕ → Option SupportConversation → Action Backend SupportConversation
  or_open user_id fresh now (some c) = pure c
  or_open user_id fresh now none = transaction (open_conversation user_id fresh now)

  unfoldable pub ensure_conversation_for_user :
      ℕ → FreshConversation → ℕ → Action Backend SupportConversation
  unfolding open_conversation
  ensure_conversation_for_user user_id fresh now = do
    existing ← gets (λ s. db.find_first (is_open_of user_id) s.support_conversations)
    or_open user_id fresh now existing

  unfoldable pub get_my_conversation :
      AuthenticatedPrincipal → FreshConversation → ℕ → Action Backend PresentedConversation
  unfolding ensure_conversation_for_user
  get_my_conversation actor fresh now = do
    c ← ensure_conversation_for_user actor.id fresh now
    gets (present_conversation db c)
