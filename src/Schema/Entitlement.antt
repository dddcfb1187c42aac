-- ===== src/Schema/Entitlement.antt =====
-- Subscriptions with their history, access groups with their members, and episode grants (models
-- of prisma/schema.prisma).
use backendurdubolonest.Base.{ℕ, Bool, true, false, Option, String, Text}

pub data SubscriptionStatus : Type 0 where
  active cancelled expired : SubscriptionStatus

pub data GrantStatus : Type 0 where
  active revoked : GrantStatus

pub record SubscriptionPlan : Type 0 where
  pub id : ℕ
  pub code : Text
  pub name : Text
  pub price_pkr : ℕ
  pub duration_days : ℕ
  pub is_active : Bool

pub record Subscription : Type 0 where
  pub id : ℕ
  pub user_id : ℕ
  pub plan_id : ℕ
  pub status : SubscriptionStatus
  pub starts_at : ℕ
  pub ends_at : ℕ
  pub cancelled_at : Option ℕ
  pub note : Option Text

pub record SubscriptionHistory : Type 0 where
  pub subscription_id : ℕ
  pub actor_id : ℕ
  pub action : String
  pub old_starts_at : Option ℕ
  pub old_ends_at : Option ℕ
  pub new_starts_at : Option ℕ
  pub new_ends_at : Option ℕ
  pub note : Option Text

pub record AccessGroup : Type 0 where
  pub id : ℕ
  pub name : Text

pub record GroupMember : Type 0 where
  pub id : ℕ
  pub group_id : ℕ
  pub user_id : ℕ
  pub starts_at : ℕ
  pub ends_at : ℕ
  pub revoked_at : Option ℕ
  pub comment : Option Text
  pub subscription : Bool

pub record EpisodeGrant : Type 0 where
  pub id : ℕ
  pub episode_id : ℕ
  pub user_id : Option ℕ
  pub group_id : Option ℕ
  pub starts_at : ℕ
  pub ends_at : ℕ
  pub status : GrantStatus
  pub revoked_at : Option ℕ

pub record GrantHistory : Type 0 where
  pub grant_id : ℕ
  pub actor_id : ℕ
  pub action : String
  pub old_status : Option GrantStatus
  pub new_status : GrantStatus
  pub old_ends_at : Option ℕ
  pub new_ends_at : Option ℕ
  pub note : Option Text

abbrev pub is_subscription_active : SubscriptionStatus → Bool
is_subscription_active SubscriptionStatus.active = true
is_subscription_active SubscriptionStatus.cancelled = false
is_subscription_active SubscriptionStatus.expired = false

abbrev pub is_grant_active : GrantStatus → Bool
is_grant_active GrantStatus.active = true
is_grant_active GrantStatus.revoked = false
