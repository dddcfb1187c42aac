-- ===== src/Auth/Devices/Limit.antt =====
-- The limit on trusted devices: it holds for new devices and is not tested for known ones.
use backendurdubolonest.Base.{
  ℕ, ◌+◌, ◌≤◌, ◌≡◌, refl, Bool, true, false, ◌&&◌, none, some, List, [], ◌∷◌, arith, trim, ◌==◌,
  any, count, map_where, is_none,
}
use backendurdubolonest.Prisma.{Prisma}
use backendurdubolonest.Prisma.Rows.{any-of-count, any-map_where_cleared}
use backendurdubolonest.Http.{ok, ◌>>=◌}
use backendurdubolonest.Schema.{
  Backend, TrustedDevice, DeviceStatus, RefreshSession, PlaybackSession, PlaybackStatus,
  is_device_active, is_playback_active,
}
use backendurdubolonest.Audit.{write_audit}
use backendurdubolonest.Auth.{Runtime, Request, AuthenticatedPrincipal, update_sessions}
use backendurdubolonest.Auth.Devices.{
  DeviceDto, or_keep, is_device, is_active_device, find_device, set_devices, create_device,
  upsert_device, register_device_row, register_device, update_devices, revoke_playback,
  revoke_device_row, revoke_device,
}

-- The row of the session that the caller presents is live.
abbrev pub is_callers : AuthenticatedPrincipal → RefreshSession → Bool
is_callers actor x = x.id == actor.session_id && (x.user_id == actor.id && is_none x.revoked_at)

abbrev reactivated : Runtime → DeviceDto → Request → TrustedDevice → TrustedDevice
reactivated env dto r d = record d {
  device_name = or_keep dto.device_name d.device_name;
  fingerprint_hash = env.hash_fingerprint (trim dto.fingerprint);
  status = DeviceStatus.active;
  revoked_at = none;
  last_seen_at = r.now;
}

-- Reactivating rows that are not active adds them all to the active ones.
count-reactivated :
    (env : Runtime) (dto : DeviceDto) (r : Request) (user_id : ℕ) (t : List TrustedDevice)
    → any (λ d. is_device user_id dto.device_id d && is_device_active d.status) t ≡ false
    → count
        (is_active_device user_id)
        (map_where (is_device user_id dto.device_id) (reactivated env dto r) t)
      ≡ count (is_active_device user_id) t + count (is_device user_id dto.device_id) t
count-reactivated env dto r user_id [] idle = refl
count-reactivated env dto r user_id (d ∷ ds) idle =
    ground (arith, count-reactivated env dto r user_id ds)

module _ (db : Prisma) (env : Runtime) where
  -- Registering a device that the user has not had never exceeds the limit.
  pub register_new_device-limit :
      (actor : AuthenticatedPrincipal) (dto : DeviceDto) (id result : ℕ) (r : Request)
      (s t : Backend)
      → find_device db actor.id dto.device_id s ≡ none
      → register_device db env actor dto id r s ≡ (ok result, t)
      → (count (is_active_device actor.id) t.trusted_devices ≤ env.max_trusted_devices)
        × (count (is_active_device actor.id) t.trusted_devices
            ≡ count (is_active_device actor.id) s.trusted_devices + 1)
  unfolding register_device register_device_row upsert_device find_device create_device
      update_sessions write_audit ◌>>=◌
  register_new_device-limit actor dto id result r s t absent h =
      grind (arith, db.count_rows_lem, db.create_lem, db.update_many_lem)

  -- A device that the user has revoked is registered again whatever the limit.
  pub register_revoked_device :
      (actor : AuthenticatedPrincipal) (dto : DeviceDto) (id : ℕ) (r : Request) (s : Backend)
      (d : TrustedDevice)
      → any (is_callers actor) s.refresh_sessions ≡ true
      → find_device db actor.id dto.device_id s ≡ some d
      → any (λ x. is_device actor.id dto.device_id x && is_device_active x.status) s.trusted_devices
        ≡ false
      → count (is_device actor.id dto.device_id) s.trusted_devices ≡ 1
      → let (result, t) = register_device db env actor dto id r s in
        (result ≡ ok d.id)
        × (count (is_active_device actor.id) t.trusted_devices
            ≡ count (is_active_device actor.id) s.trusted_devices + 1)
  unfolding register_device register_device_row upsert_device find_device set_devices
      update_sessions write_audit ◌>>=◌
  register_revoked_device actor dto id r s d live found idle sole = grind (
    arith,
    db.update_many_lem,
    any-of-count (is_callers actor) s.refresh_sessions,
    count-reactivated env dto r actor.id s.trusted_devices idle,
  )

module _ (db : Prisma) where
  -- Revoking a device ends it and every playback session on it.
  pub revoke_device-ends :
      (actor : AuthenticatedPrincipal) (id : ℕ) (r : Request) (s t : Backend)
      → revoke_device db actor id r s ≡ (ok tt, t)
      → (any (λ d. d.id == id && is_active_device actor.id d) t.trusted_devices ≡ false)
        × (any (λ x. x.trusted_device_id == id && is_playback_active x.status) t.playback_sessions
            ≡ false)
  unfolding revoke_device revoke_device_row update_devices revoke_playback write_audit ◌>>=◌
  revoke_device-ends actor id r s t h = grind (
    arith,
    db.update_many_lem,
    any-map_where_cleared (λ (d : TrustedDevice). d.id == id && is_active_device actor.id d)
        (λ (d : TrustedDevice). record d { status = DeviceStatus.revoked; revoked_at = some r.now })
        s.trusted_devices (λ (d : TrustedDevice). ground arith),
    any-map_where_cleared
        (λ (x : PlaybackSession). x.trusted_device_id == id && is_playback_active x.status)
        (λ (x : PlaybackSession). record x {
          status = PlaybackStatus.revoked;
          revoked_at = some r.now;
        })
        s.playback_sessions (λ (x : PlaybackSession). ground arith),
  )
