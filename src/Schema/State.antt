-- ===== src/Schema/State.antt =====
-- The state that the services share: the tables of the database, and what Redis holds of playback
-- capabilities.
use backendurdubolonest.Base.{ℕ, List}
use backendurdubolonest.Schema.Identity.{
  User, RoleDefinition, UserRole, Permission, RolePermission, UserPermission, RefreshSession,
  TrustedDevice, LoginHistory, AuditEvent,
}
use backendurdubolonest.Schema.Catalog.{Drama, Season, Episode, MediaAsset}
use backendurdubolonest.Schema.Entitlement.{
  SubscriptionPlan, Subscription, SubscriptionHistory, AccessGroup, GroupMember, EpisodeGrant,
  GrantHistory,
}
use backendurdubolonest.Schema.Playback.{
  PlaybackSession, PlaybackHeartbeat, PlaybackHistory, PlaybackCapabilityState,
}
use backendurdubolonest.Schema.Support.{SupportConversation, SupportMessage}

pub record Backend : Type 0 where
  pub users : List User
  pub role_definitions : List RoleDefinition
  pub user_roles : List UserRole
  pub permissions : List Permission
  pub role_permissions : List RolePermission
  pub user_permissions : List UserPermission
  pub refresh_sessions : List RefreshSession
  pub trusted_devices : List TrustedDevice
  pub login_history : List LoginHistory
  pub audit_events : List AuditEvent
  pub dramas : List Drama
  pub seasons : List Season
  pub episodes : List Episode
  pub media_assets : List MediaAsset
  pub plans : List SubscriptionPlan
  pub subscriptions : List Subscription
  pub subscription_history : List SubscriptionHistory
  pub access_groups : List AccessGroup
  pub group_members : List GroupMember
  pub episode_grants : List EpisodeGrant
  pub grant_history : List GrantHistory
  pub playback_sessions : List PlaybackSession
  pub playback_heartbeats : List PlaybackHeartbeat
  pub playback_history : List PlaybackHistory
  pub capabilities : List (ℕ × ℕ × PlaybackCapabilityState)
  pub support_conversations : List SupportConversation
  pub support_messages : List SupportMessage
