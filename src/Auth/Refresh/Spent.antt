-- ===== src/Auth/Refresh/Spent.antt =====
-- A session that is revoked stays revoked: every operation of the authentication and of the user
-- service keeps it so.
use backendurdubolonest.Base.{
  ℕ, ◌≡◌, ◌∙◌, refl, Bool, true, false, ◌&&◌, Option, some, List, [], ◌∷◌, arith, ◌==◌, any,
  is_none,
}
use backendurdubolonest.Prisma.{Prisma}
use backendurdubolonest.Prisma.Rows.{any-map_where-false, any-map_where}
use backendurdubolonest.Http.{◌>>=◌}
use backendurdubolonest.Http.Keeps.{Keeps, keeps_rules}
use backendurdubolonest.Schema.{
  Backend, User, UserRole, LoginHistory, AuditEvent, TrustedDevice, RefreshSession,
}
use backendurdubolonest.Audit.{write_audit}
use backendurdubolonest.Auth.{session_clash, create_session, update_sessions, create_login_history}
use backendurdubolonest.Auth.Login.{update_user, update_users, create_user, create_user_role}
use backendurdubolonest.Auth.Devices.{
  or_keep, set_devices, update_devices, create_device, revoke_playback,
}

-- The unique columns of a session.
pub data Column : Type 0 where
  by_id by_token : Column

abbrev pub column : Column → RefreshSession → ℕ
column by_id x = x.id
column by_token x = x.token_hash

-- A live row with this key.
abbrev pub is_live_row : Column → ℕ → RefreshSession → Bool
is_live_row c key x = column c x == key && is_none x.revoked_at

-- A session with this key exists, and every such row is revoked.
pub record IsSpent (c : Column) (key : ℕ) (s : Backend) : Type 0 where
  pub known : any (λ x. column c x == key) s.refresh_sessions ≡ true
  pub dead : any (is_live_row c key) s.refresh_sessions ≡ false

-- A new row that clashes with none has another key than the rows that are there.
pub fresh-ne-known :
    (c : Column) (key : ℕ) (row : RefreshSession) (t : List RefreshSession)
    → any (λ x. column c x == key) t ≡ true
    → any (session_clash row) t ≡ false
    → (column c row == key) ≡ false
fresh-ne-known c key row [] known apart = cc
fresh-ne-known by_id key row (x ∷ xs) known apart = ground (arith, fresh-ne-known by_id key row xs)
fresh-ne-known by_token key row (x ∷ xs) known apart =
    ground (arith, fresh-ne-known by_token key row xs)

-- A change of rows that keeps their keys and brings none back to life.
pub record KeepsDead (f : RefreshSession → RefreshSession) : Type 0 where
  pub same : (c : Column) (x : RefreshSession) → column c (f x) ≡ column c x
  pub stays : (x : RefreshSession) → is_none x.revoked_at ≡ false → is_none (f x).revoked_at ≡ false

pub KeepsDead-revoke : (now : ℕ) → KeepsDead (λ x. record x { revoked_at = some now })
KeepsDead-revoke now = record {
  same = elim [ by_id ↦ λ x. refl | by_token ↦ λ x. refl ];
  stays = λ x e. refl;
}

pub KeepsDead-rotate :
    (now by : ℕ)
    → KeepsDead
        (λ x. record x { revoked_at = some now; replaced_by_id = some by; last_seen_at = now })
KeepsDead-rotate now by = record {
  same = elim [ by_id ↦ λ x. refl | by_token ↦ λ x. refl ];
  stays = λ x e. refl;
}

pub KeepsDead-device :
    (device : Option ℕ) (name token : Option ℕ)
    → KeepsDead (λ x. record x {
      device_id = device;
      device_name = or_keep name x.device_name;
      device_token = or_keep token x.device_token;
    })
KeepsDead-device device name token = record {
  same = elim [ by_id ↦ λ x. refl | by_token ↦ λ x. refl ];
  stays = λ x e. e;
}

module _ (db : Prisma) (c : Column) (key : ℕ) where
  pub update_sessions-IsSpent :
      (p : RefreshSession → Bool) (f : RefreshSession → RefreshSession)
      → KeepsDead f
      → Keeps (IsSpent c key) (update_sessions db p f)
  unfolding update_sessions ◌>>=◌
  update_sessions-IsSpent p f k = record {
    at = λ s h. rw (db.update_many_lem) (record {
      known =
          any-map_where (λ x. column c x == key) p f s.refresh_sessions (λ x. rw (k.same c x))
          ∙ h.known;
      dead =
          any-map_where-false (is_live_row c key) p f s.refresh_sessions
            (λ x. ground (arith, k.same c x, k.stays x)) h.dead;
    });
  }

  pub create_session-IsSpent :
      (row : RefreshSession) → Keeps (IsSpent c key) (create_session db row)
  unfolding create_session ◌>>=◌
  create_session-IsSpent row = record {
    at = λ s h. grind (arith, db.create_lem, fresh-ne-known c key row s.refresh_sessions h.known);
  }

  pub write_audit-IsSpent : (row : AuditEvent) → Keeps (IsSpent c key) (write_audit db row)
  unfolding write_audit ◌>>=◌
  write_audit-IsSpent row = record { at = λ s h. ground (arith, h.known, h.dead) }

  pub create_login_history-IsSpent :
      (row : LoginHistory) → Keeps (IsSpent c key) (create_login_history db row)
  unfolding create_login_history ◌>>=◌
  create_login_history-IsSpent row = record { at = λ s h. ground (arith, h.known, h.dead) }

  pub create_user-IsSpent : (row : User) → Keeps (IsSpent c key) (create_user db row)
  unfolding create_user ◌>>=◌
  create_user-IsSpent row = record { at = λ s h. ground (arith, h.known, h.dead) }

  pub create_user_role-IsSpent : (row : UserRole) → Keeps (IsSpent c key) (create_user_role db row)
  unfolding create_user_role ◌>>=◌
  create_user_role-IsSpent row = record { at = λ s h. ground (arith, h.known, h.dead) }

  pub create_device-IsSpent : (row : TrustedDevice) → Keeps (IsSpent c key) (create_device db row)
  unfolding create_device ◌>>=◌
  create_device-IsSpent row = record { at = λ s h. ground (arith, h.known, h.dead) }

  pub update_user-IsSpent : (u : ℕ) (f : User → User) → Keeps (IsSpent c key) (update_user db u f)
  unfolding update_user ◌>>=◌
  update_user-IsSpent u f = record { at = λ s h. ground (arith, h.known, h.dead) }

  pub update_users-IsSpent :
      (p : User → Bool) (f : User → User) → Keeps (IsSpent c key) (update_users db p f)
  unfolding update_users ◌>>=◌
  update_users-IsSpent p f = record { at = λ s h. ground (arith, h.known, h.dead) }

  pub update_devices-IsSpent :
      (p : TrustedDevice → Bool) (f : TrustedDevice → TrustedDevice)
      → Keeps (IsSpent c key) (update_devices db p f)
  unfolding update_devices ◌>>=◌
  update_devices-IsSpent p f = record { at = λ s h. ground (arith, h.known, h.dead) }

  pub set_devices-IsSpent :
      (u d : ℕ) (f : TrustedDevice → TrustedDevice) → Keeps (IsSpent c key) (set_devices db u d f)
  unfolding set_devices ◌>>=◌
  set_devices-IsSpent u d f = record { at = λ s h. ground (arith, h.known, h.dead) }

  pub revoke_playback-IsSpent : (d now : ℕ) → Keeps (IsSpent c key) (revoke_playback db d now)
  unfolding revoke_playback ◌>>=◌
  revoke_playback-IsSpent d now = record { at = λ s h. ground (arith, h.known, h.dead) }

  pub ruleset spent_rules = (
    keeps_rules, update_sessions-IsSpent, create_session-IsSpent, KeepsDead-revoke,
    KeepsDead-rotate, KeepsDead-device, write_audit-IsSpent, create_login_history-IsSpent,
    create_user-IsSpent, create_user_role-IsSpent, create_device-IsSpent, update_user-IsSpent,
    update_users-IsSpent, update_devices-IsSpent, set_devices-IsSpent, revoke_playback-IsSpent,
  )
