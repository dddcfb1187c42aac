-- ===== src/Support.antt =====
-- src/support-chat/support-chat.service.ts and the socket gateway beside it: what their parts share,
-- and how rows are presented. The runtime gives the configured address and the code of a permission.
pub mod Conversations
pub mod Inbox
pub mod Messages
pub mod Unread
pub mod Kept
pub mod Steps
pub mod Private
pub mod Gateway
use backendurdubolonest.Base.{
  ℕ, Bool, true, false, not, ◌&&◌, ◌||◌, Option, none, some, List, [], ◌∷◌, ◌++◌, Text, codes,
  is_empty, leb, ltb, ◌==◌, ◌+◌, if◌then◌else◌, any, elem, text_eq, take, is_some,
}
use backendurdubolonest.Prisma.{Prisma}
use backendurdubolonest.Http.{
  Error, forbidden, not_found, p2025, Action, ◌>>=◌, ◌>>◌, pure, gets, or_raise, raise_if, modify,
}
use backendurdubolonest.Schema.{
  Backend, User, RoleCode, SupportConversation, SupportConversationStatus, SupportMessage,
  SupportMessageSenderType, SupportMessageType, SupportMessageStatus,
}
use backendurdubolonest.Auth.{AuthenticatedPrincipal}
use backendurdubolonest.Uploads.Manifest.{strip_slashes}

pub record SupportRuntime : Type 0 where
  -- The permission `messages.read`.
  pub messages_read : ℕ
  pub r2_public_base_url : Text
  -- `toLowerCase` of a text that is searched.
  pub lower_case : Text → Text
  -- `contains` of the database in the mode `insensitive`: the column, and what is searched.
  pub contains : Text → Text → Bool

pub record CreateSupportMessageDto : Type 0 where
  pub text : Option Text
  pub message : Option Text
  pub message_type : Option SupportMessageType
  pub media_url : Option Text
  pub thumbnail : Option Text
  pub mime_type : Option Text
  pub original_name : Option Text
  pub file_size : Option ℕ
  pub voice_duration : Option ℕ
  pub reply_to_message_id : Option ℕ

pub record SupportMessageQueryDto : Type 0 where
  pub page : ℕ
  pub limit : ℕ

abbrev pub is_staff_role : RoleCode → Bool
is_staff_role RoleCode.super_admin = true
is_staff_role RoleCode.admin = true
is_staff_role RoleCode.sub_admin = true
is_staff_role RoleCode.moderator = true
is_staff_role _ = false

abbrev pub is_user_sender : SupportMessageSenderType → Bool
is_user_sender SupportMessageSenderType.user = true
is_user_sender _ = false

abbrev pub is_admin_sender : SupportMessageSenderType → Bool
is_admin_sender SupportMessageSenderType.admin = true
is_admin_sender _ = false

abbrev pub is_seen : SupportMessageStatus → Bool
is_seen SupportMessageStatus.seen = true
is_seen _ = false

-- What is shown of a user beside a message or a conversation.
pub record Person : Type 0 where
  pub id : ℕ
  pub username : Text
  pub email : Text

-- What is shown of the user of a conversation.
pub record Customer : Type 0 where
  pub person : Person
  pub profile_image_key : Option ℕ
  pub last_login_at : Option ℕ

pub record Preview : Type 0 where
  pub id : ℕ
  pub text : Option Text
  pub message_type : SupportMessageType
  pub sender_type : SupportMessageSenderType
  pub created_at : ℕ

-- `presentConversation` adds the two persons and the last message to the columns of the row.
pub record PresentedConversation : Type 0 where
  pub row : SupportConversation
  pub user : Option Customer
  pub assigned_admin : Option Person
  pub last_message : Option Preview

-- `presentMessage` replaces the address of the media and adds the sender.
pub record PresentedMessage : Type 0 where
  pub row : SupportMessage
  pub media_url : Option Text
  pub file_size : Option ℕ
  pub sender : Option Person

abbrev person : Option User → Option Person
person none = none
person (some u) = some (record { id = u.id; username = u.username; email = u.email })

abbrev customer : Option User → Option Customer
customer none = none
customer (some u) = some (record {
  person = record { id = u.id; username = u.username; email = u.email };
  profile_image_key = u.profile_image_key;
  last_login_at = u.last_login_at;
})

abbrev preview : Option SupportMessage → Option Preview
preview none = none
preview (some m) = some (record {
  id = m.id;
  text = m.text;
  message_type = m.message_type;
  sender_type = m.sender_type;
  created_at = m.created_at;
})

abbrev lower_ascii : ℕ → ℕ
lower_ascii c = if leb b'A' c && leb c b'Z' then c + 32 else c

-- A prefix, without regard to the case of ASCII letters.
abbrev pub has_prefix : Text → Text → Bool
has_prefix [] s = true
has_prefix (p ∷ ps) [] = false
has_prefix (p ∷ ps) (c ∷ cs) = lower_ascii c == p && has_prefix ps cs

-- `/^https?:\/\//i`
abbrev pub is_address : Text → Bool
is_address value = has_prefix (codes "http://") value || has_prefix (codes "https://") value

-- `replace(/^\/+/, '')`
abbrev pub strip_leading_slashes : Text → Text
strip_leading_slashes [] = []
strip_leading_slashes (c ∷ cs) = if c == b'/' then strip_leading_slashes cs else c ∷ cs

abbrev shown : Bool → Bool → Text → Text → Text
shown true has_base base value = value
shown false true base value = base ++ b'/' ∷ strip_leading_slashes value
shown false false base value = value

-- A `0` and no value are presented as `null`.
abbrev non_zero : Option ℕ → Option ℕ
non_zero none = none
non_zero (some n) = if n == 0 then none else some n

abbrev pub non_empty : Option Text → Option Text
non_empty none = none
non_empty (some t) = if is_empty t then none else some t

module _ (env : SupportRuntime) where
  unfoldable pub public_media_url : Option Text → Option Text
  unfolding strip_slashes
  public_media_url value = elim (non_empty value) [
    | none ↦ none
    | some url ↦
        let base = strip_slashes env.r2_public_base_url in
        some (shown (is_address url) (not (is_empty base)) base url)
  ]

  abbrev pub is_staff : AuthenticatedPrincipal → Bool
  is_staff actor = any is_staff_role actor.roles || elem env.messages_read actor.permissions

  unfoldable pub assert_staff : AuthenticatedPrincipal → Action Backend (Unit {0})
  assert_staff actor =
      raise_if (not (is_staff actor)) (forbidden "Support chat inbox is not available")

module _ (db : Prisma) where
  abbrev pub find_person : Option ℕ → Backend → Option Person
  find_person none s = none
  find_person (some id) s = person (db.find_first (λ u. u.id == id) s.users)

  abbrev pub present_conversation : SupportConversation → Backend → PresentedConversation
  present_conversation c s = record {
    row = c;
    user = customer (db.find_first (λ u. u.id == c.user_id) s.users);
    assigned_admin = find_person c.assigned_admin_id s;
    last_message =
        preview
          (db.find_latest (λ m. m.created_at) (λ m. m.conversation_id == c.id) s.support_messages);
  }

  abbrev pub present_message : SupportRuntime → SupportMessage → Backend → PresentedMessage
  present_message env m s = record {
    row = m;
    media_url = public_media_url env m.media_url;
    file_size = non_zero m.file_size;
    sender = find_person m.sender_id s;
  }

  -- `update` of the row with this key.
  unfoldable pub update_conversation :
      ℕ → (SupportConversation → SupportConversation) → Action Backend (Unit {0})
  update_conversation id data_row = do
    result ← gets (λ s. db.update_many (λ c. c.id == id) data_row s.support_conversations)
    modify (λ s. record s { support_conversations = result.0 })
    raise_if (result.1 == 0) p2025

  unfoldable pub update_messages :
      (SupportMessage → Bool) → (SupportMessage → SupportMessage) → Action Backend ℕ
  update_messages where_row data_row = do
    result ← gets (λ s. db.update_many where_row data_row s.support_messages)
    modify (λ s. record s { support_messages = result.0 })
    pure result.1

  unfoldable pub insert_message : SupportMessage → Action Backend (Unit {0})
  insert_message row = modify λ s. record s { support_messages = db.insert row s.support_messages }

  module _ (env : SupportRuntime) where
    unfoldable pub require_conversation :
        ℕ → AuthenticatedPrincipal → Action Backend SupportConversation
    require_conversation id actor = do
      found ← gets (λ s.
          db.find_first (λ c. c.id == id && not (is_some c.deleted_at)) s.support_conversations)
      c ← or_raise (not_found "Conversation not found") found
      raise_if (not (is_staff env actor) && not (c.user_id == actor.id))
          (forbidden "Conversation is not available")
      pure c
