-- ===== src/Schema/Support.antt =====
-- Support conversations and messages (models of prisma/schema.prisma).
use backendurdubolonest.Base.{ℕ, Bool, Option, Text}

pub data SupportConversationStatus : Type 0 where
  open_state waiting resolved blocked : SupportConversationStatus

pub data SupportMessageSenderType : Type 0 where
  user admin system : SupportMessageSenderType

pub data SupportMessageType : Type 0 where
  text image video voice file system : SupportMessageType

pub data SupportMessageStatus : Type 0 where
  sent delivered seen : SupportMessageStatus

pub record SupportConversation : Type 0 where
  pub id : ℕ
  pub user_id : ℕ
  pub assigned_admin_id : Option ℕ
  pub status : SupportConversationStatus
  pub last_message_id : Option ℕ
  pub last_message_at : Option ℕ
  pub user_unread_count : ℕ
  pub admin_unread_count : ℕ
  pub user_last_seen_at : Option ℕ
  pub admin_last_seen_at : Option ℕ
  pub created_at : ℕ
  pub deleted_at : Option ℕ

pub record SupportMessage : Type 0 where
  pub id : ℕ
  pub conversation_id : ℕ
  pub sender_type : SupportMessageSenderType
  pub sender_id : Option ℕ
  pub message_type : SupportMessageType
  pub text : Option Text
  pub media_url : Option Text
  pub thumbnail : Option Text
  pub voice_duration : Option ℕ
  pub file_size : Option ℕ
  pub mime_type : Option Text
  pub reply_to_message_id : Option ℕ
  pub status : SupportMessageStatus
  pub delivered_at : Option ℕ
  pub seen_at : Option ℕ
  pub deleted_by_user : Bool
  pub deleted_by_admin : Bool
  pub created_at : ℕ
