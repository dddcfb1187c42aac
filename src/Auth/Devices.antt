-- ===== src/Auth/Devices.antt =====
-- Trusted devices of src/auth/auth.service.ts: `registerDevice` and `revokeDevice`.
pub mod Limit
use backendurdubolonest.Base.{
  ℕ, Bool, not, ◌&&◌, ◌||◌, Option, none, some, Text, trim, leb, ◌==◌, is_none,
}
use backendurdubolonest.Prisma.{Prisma}
use backendurdubolonest.Http.{
  unauthorized, p2002, Action, ◌>>=◌, ◌>>◌, pure, gets, or_raise, modify, raise_if, when,
  transaction,
}
use backendurdubolonest.Schema.{
  Backend, TrustedDevice, DeviceStatus, PlaybackStatus, success, is_device_active,
  is_playback_active,
}
use backendurdubolonest.Audit.{audit_input, write_audit}
use backendurdubolonest.Auth.{Runtime, Request, AuthenticatedPrincipal, update_sessions}

pub record DeviceDto : Type 0 where
  pub device_id : ℕ
  pub fingerprint : Text
  pub device_name : Option ℕ
  pub device_token : Option ℕ

-- The unique columns of `trusted_devices`.
abbrev pub device_clash : TrustedDevice → TrustedDevice → Bool
device_clash a b = a.id == b.id || (a.user_id == b.user_id && a.device_id == b.device_id)

-- A column that `data` gives as `undefined` keeps its value.
unfoldable pub or_keep : Option ℕ → Option ℕ → Option ℕ
or_keep none old = old
or_keep (some new) old = some new

-- `userId_deviceId`
abbrev pub is_device : ℕ → ℕ → TrustedDevice → Bool
is_device user_id device_id d = d.user_id == user_id && d.device_id == device_id

abbrev pub is_active_device : ℕ → TrustedDevice → Bool
is_active_device user_id d = d.user_id == user_id && is_device_active d.status

module _ (db : Prisma) where
  unfoldable pub find_device : ℕ → ℕ → Backend → Option TrustedDevice
  find_device user_id device_id s = db.find_first (is_device user_id device_id) s.trusted_devices

  abbrev count_active_devices : ℕ → Backend → ℕ
  count_active_devices user_id s = db.count_rows (is_active_device user_id) s.trusted_devices

  unfoldable pub set_devices : ℕ → ℕ → (TrustedDevice → TrustedDevice) → Action Backend (Unit {0})
  set_devices user_id device_id data_row = modify λ s. record s {
    trusted_devices = (db.update_many (is_device user_id device_id) data_row s.trusted_devices).0;
  }

  unfoldable pub create_device : TrustedDevice → Action Backend (Unit {0})
  create_device row = do
    table ← gets (λ s. s.trusted_devices)
    grown ← or_raise p2002 (db.create device_clash row table)
    modify (λ s. record s { trusted_devices = grown })

  module _ (env : Runtime) where
    -- `upsert`, by what `findUnique` has found in the same transaction.
    unfoldable pub upsert_device :
        AuthenticatedPrincipal → DeviceDto → ℕ → Request → Option TrustedDevice → Action Backend ℕ
    upsert_device principal dto id r (some existing) = do
      set_devices principal.id dto.device_id (λ d. record d {
        device_name = or_keep dto.device_name d.device_name;
        fingerprint_hash = env.hash_fingerprint (trim dto.fingerprint);
        status = DeviceStatus.active;
        revoked_at = none;
        last_seen_at = r.now;
      })
      pure existing.id
    upsert_device principal dto id r none = do
      create_device (record {
        id = id;
        user_id = principal.id;
        device_id = dto.device_id;
        device_name = dto.device_name;
        fingerprint_hash = env.hash_fingerprint (trim dto.fingerprint);
        status = DeviceStatus.active;
        last_seen_at = r.now;
        revoked_at = none;
      })
      pure id

    unfoldable pub register_device_row :
        AuthenticatedPrincipal → DeviceDto → ℕ → Request → Action Backend ℕ
    register_device_row principal dto id r = do
      changed ←
          update_sessions db
            (λ x.
              x.id == principal.session_id && (x.user_id == principal.id && is_none x.revoked_at))
            (λ x. record x {
              device_id = some dto.device_id;
              device_name = or_keep dto.device_name x.device_name;
              device_token = or_keep dto.device_token x.device_token;
            })
      raise_if (changed == 0) (unauthorized "Session is no longer valid")
      existing ← gets (find_device principal.id dto.device_id)
      active_count ← gets (count_active_devices principal.id)
      raise_if (is_none existing && leb env.max_trusted_devices active_count)
          (unauthorized "Trusted device limit reached")
      upsert_device principal dto id r existing

    unfoldable pub register_device :
        AuthenticatedPrincipal → DeviceDto → ℕ → Request → Action Backend ℕ
    register_device principal dto id r = do
      device ← transaction (register_device_row principal dto id r)
      write_audit db (
          audit_input (some principal.id) "auth.device_register" "session"
            (some principal.session_id) success r.request_id)
      pure device

  unfoldable pub revoke_playback : ℕ → ℕ → Action Backend (Unit {0})
  revoke_playback device_id now = modify λ s. record s {
    playback_sessions =
        (db.update_many (λ x. x.trusted_device_id == device_id && is_playback_active x.status)
          (λ x. record x { status = PlaybackStatus.revoked; revoked_at = some now })
          s.playback_sessions).0;
  }

  unfoldable pub update_devices :
      (TrustedDevice → Bool) → (TrustedDevice → TrustedDevice) → Action Backend ℕ
  update_devices where_row data_row = do
    result ← gets (λ s. db.update_many where_row data_row s.trusted_devices)
    modify (λ s. record s { trusted_devices = result.0 })
    pure result.1

  unfoldable pub revoke_device_row : AuthenticatedPrincipal → ℕ → Request → Action Backend ℕ
  revoke_device_row principal device_id r = do
    changed ←
        update_devices (λ d. d.id == device_id && is_active_device principal.id d)
          (λ d. record d { status = DeviceStatus.revoked; revoked_at = some r.now })
    when (not (changed == 0)) (revoke_playback device_id r.now)
    pure changed

  unfoldable pub revoke_device : AuthenticatedPrincipal → ℕ → Request → Action Backend (Unit {0})
  unfolding revoke_device_row
  revoke_device principal device_id r = do
    changed ← transaction (revoke_device_row principal device_id r)
    raise_if (changed == 0) (unauthorized "Trusted device is unavailable")
    write_audit db (
        audit_input (some principal.id) "auth.device_revoke" "trusted_device" (some device_id)
          success r.request_id)
