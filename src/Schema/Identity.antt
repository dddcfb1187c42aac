-- ===== src/Schema/Identity.antt =====
-- Users, roles and permissions, refresh sessions, trusted devices, login history and audit events
-- (models of prisma/schema.prisma).
use backendurdubolonest.Base.{ℕ, Bool, true, false, Option, String, Text}

pub data UserStatus : Type 0 where
  active suspended disabled : UserStatus

pub data RoleCode : Type 0 where
  super_admin admin sub_admin moderator user : RoleCode

pub data DeviceStatus : Type 0 where
  active revoked : DeviceStatus

pub data AuditOutcome : Type 0 where
  success failure denied : AuditOutcome

pub record User : Type 0 where
  pub id : ℕ
  pub username : Text
  pub email : Text
  pub password_hash : ℕ
  pub status : UserStatus
  pub profile_image_key : Option ℕ
  pub failed_login_count : ℕ
  pub locked_until : Option ℕ
  pub last_login_at : Option ℕ
  pub deleted_at : Option ℕ

pub record RoleDefinition : Type 0 where
  pub id : ℕ
  pub code : RoleCode
  pub system_managed : Bool

pub record UserRole : Type 0 where
  pub user_id : ℕ
  pub role_id : ℕ

pub record Permission : Type 0 where
  pub id : ℕ
  pub code : String

pub record RolePermission : Type 0 where
  pub role_id : ℕ
  pub permission_id : ℕ

pub record UserPermission : Type 0 where
  pub user_id : ℕ
  pub permission_id : ℕ
  pub granted : Bool

pub record RefreshSession : Type 0 where
  pub id : ℕ
  pub user_id : ℕ
  pub token_hash : ℕ
  pub device_id : Option ℕ
  pub device_name : Option ℕ
  pub device_token : Option ℕ
  pub ip_address : ℕ
  pub user_agent : Text
  pub last_seen_at : ℕ
  pub expires_at : ℕ
  pub revoked_at : Option ℕ
  pub replaced_by_id : Option ℕ

pub record TrustedDevice : Type 0 where
  pub id : ℕ
  pub user_id : ℕ
  pub device_id : ℕ
  pub device_name : Option ℕ
  pub fingerprint_hash : ℕ
  pub status : DeviceStatus
  pub last_seen_at : ℕ
  pub revoked_at : Option ℕ

pub record LoginHistory : Type 0 where
  pub user_id : Option ℕ
  pub email : Text
  pub succeeded : Bool
  pub reason : String
  pub ip_address : ℕ
  pub user_agent : Text

pub record AuditEvent : Type 0 where
  pub actor_id : Option ℕ
  pub action : String
  pub resource : String
  pub resource_id : Option ℕ
  pub outcome : AuditOutcome
  pub request_id : ℕ

abbrev pub is_user_active : UserStatus → Bool
is_user_active UserStatus.active = true
is_user_active UserStatus.suspended = false
is_user_active UserStatus.disabled = false

abbrev pub is_device_active : DeviceStatus → Bool
is_device_active DeviceStatus.active = true
is_device_active DeviceStatus.revoked = false

abbrev pub role_code : RoleCode → ℕ
role_code super_admin = 0
role_code admin = 1
role_code sub_admin = 2
role_code moderator = 3
role_code user = 4
