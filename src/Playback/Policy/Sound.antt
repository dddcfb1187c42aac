-- ===== src/Playback/Policy/Sound.antt =====
-- What `authorize` has tested when it lets a user watch.
use backendurdubolonest.Base.{
  ℕ, ◌<◌, ◌≡◌, ◌⊎◌, sym, Bool, true, false, none, some, inl, inr, arith, ◌==◌, count, Among,
  Option-cases,
}
use backendurdubolonest.Prisma.{Prisma}
use backendurdubolonest.Http.{ok, ◌>>=◌}
use backendurdubolonest.Schema.{
  Backend, Episode, MediaAsset, TrustedDevice, is_user_active, is_device_active,
}
use backendurdubolonest.Audit.{write_audit}
use backendurdubolonest.Auth.{AuthenticatedPrincipal, Request}
use backendurdubolonest.Auth.Devices.{find_device, is_device}
use backendurdubolonest.Playback.{PlaybackDeviceDto, Player, fingerprint_hash}
use backendurdubolonest.Playback.Policy.{
  PlaybackAuthorizationContext, is_watchable, is_available, is_other_playback, find_episode,
  media_of, count_other_playbacks, write_denial, deny_if, is_entitled, authorize_device, authorize,
}

-- What holds of the state, of the device and of the context when the policy answers.
pub record DeviceTested (env : Player) (principal : AuthenticatedPrincipal)
    (dto : PlaybackDeviceDto) (existing : Bool) (r : Request) (s : Backend)
    (c : PlaybackAuthorizationContext) (d : TrustedDevice) : Type 0 where
  pub device : d.id ≡ c.trusted_device_id
  pub trusted : is_device_active d.status ≡ true
  pub enrolled : d.fingerprint_hash ≡ c.fingerprint_hash
  pub fingerprint : c.fingerprint_hash ≡ fingerprint_hash env dto.fingerprint
  pub concurrent :
      (existing ≡ true)
      ⊎ (count (is_other_playback principal.id c.episode_id d.id r.now) s.playback_sessions
          < env.max_concurrent_sessions)

-- The same of the account, the episode and its media.
pub record EpisodeTested (db : Prisma) (principal : AuthenticatedPrincipal) (now : ℕ) (s : Backend)
    (c : PlaybackAuthorizationContext) (e : Episode) (m : MediaAsset) : Type 0 where
  pub account : is_user_active principal.status ≡ true
  pub watchable : is_watchable s c.episode_id e ≡ true
  pub available : is_available m ≡ true
  pub episode : m.episode_id ≡ c.episode_id
  pub media : m.id ≡ c.media_asset_id
  pub entitled : (e.is_premium ≡ false) ⊎ (is_entitled db principal.id c.episode_id now s ≡ true)

module _ (db : Prisma) (env : Player) where
  authorize_device-eq-ok :
      (principal : AuthenticatedPrincipal) (episode : Episode) (media : MediaAsset)
      (dto : PlaybackDeviceDto) (existing : Bool) (r : Request) (d : TrustedDevice) (s t : Backend)
      (c : PlaybackAuthorizationContext)
      → authorize_device db env principal episode media dto existing r (some d) s ≡ (ok c, t)
      → DeviceTested env principal dto existing r s c d
  unfolding authorize_device deny_if write_denial write_audit count_other_playbacks ◌>>=◌
  authorize_device-eq-ok principal episode media dto existing r d s t c h =
      grind (arith, db.count_rows_lem)

  authorize_device-context :
      (principal : AuthenticatedPrincipal) (episode : Episode) (media : MediaAsset)
      (dto : PlaybackDeviceDto) (existing : Bool) (r : Request) (d : TrustedDevice) (s t : Backend)
      (c : PlaybackAuthorizationContext)
      → authorize_device db env principal episode media dto existing r (some d) s ≡ (ok c, t)
      → (t ≡ s) × (c.episode_id ≡ episode.id) × (c.media_asset_id ≡ media.id)
  unfolding authorize_device deny_if write_denial write_audit count_other_playbacks ◌>>=◌
  authorize_device-context principal episode media dto existing r d s t c h = ground arith

  authorize_device-none :
      (principal : AuthenticatedPrincipal) (episode : Episode) (media : MediaAsset)
      (dto : PlaybackDeviceDto) (existing : Bool) (r : Request) (s t : Backend)
      (c : PlaybackAuthorizationContext)
      → ¬ (authorize_device db env principal episode media dto existing r none s ≡ (ok c, t))
  unfolding authorize_device deny_if write_denial write_audit ◌>>=◌
  authorize_device-none principal episode media dto existing r s t c h = ground arith

  -- What an answer has found.
  authorize_found :
      (principal : AuthenticatedPrincipal) (episode_id : ℕ) (dto : PlaybackDeviceDto)
      (existing : Bool) (r : Request) (s t : Backend) (c : PlaybackAuthorizationContext)
      → authorize db env principal episode_id dto existing r s ≡ (ok c, t)
      → (e : Episode) × (m : MediaAsset) × (d : TrustedDevice) × (find_episode db episode_id s
          ≡ some e)
        × (media_of db e.id s ≡ some m)
        × (find_device db principal.id dto.device_id s ≡ some d)
        × (is_user_active principal.status ≡ true)
        × (is_available m ≡ true)
        × ((e.is_premium ≡ false) ⊎ (is_entitled db principal.id episode_id r.now s ≡ true))
        × (authorize_device db env principal e m dto existing r (some d) s ≡ (ok c, t))
  unfolding authorize deny_if write_denial write_audit ◌>>=◌
  authorize_found principal episode_id dto existing r s t c h =
      elim (Option-cases (find_episode db episode_id s)) [
        | inl e ↦ ground arith
        | inr (e, is_e) ↦ elim (Option-cases (media_of db e.id s)) [
          | inl m ↦ ground arith
          | inr (m, is_m) ↦ elim (Option-cases (find_device db principal.id dto.device_id s)) [
            | inl d ↦ ground (arith, authorize_device-none principal e m dto existing r s t c)
            | inr (d, is_d) ↦
                (e, m, d, is_e, is_m, is_d, ground arith, ground arith, ground arith, ground arith)
          ]
        ]
      ]

  -- When `authorize` lets a user watch, the account is active; there is an episode with the asked
  -- identifier that is published, public and in a live season of a published drama; its media is
  -- active; if it is premium the user has a subscription or a grant; the device is an active one of
  -- the user with the fingerprint that was sent; and, unless a session is being resumed, fewer
  -- other playbacks of the user run than the limit. Nothing is written.
  pub authorize-eq-ok :
      (principal : AuthenticatedPrincipal) (episode_id : ℕ) (dto : PlaybackDeviceDto)
      (existing : Bool) (r : Request) (s t : Backend) (c : PlaybackAuthorizationContext)
      → authorize db env principal episode_id dto existing r s ≡ (ok c, t)
      → (e : Episode) × (m : MediaAsset) × (d : TrustedDevice) × (t ≡ s)
        × (c.episode_id ≡ episode_id)
        × Among e s.episodes
        × Among m s.media_assets
        × Among d s.trusted_devices
        × (is_device principal.id dto.device_id d ≡ true)
        × EpisodeTested db principal r.now s c e m
        × DeviceTested env principal dto existing r s c d
  unfolding find_episode media_of find_device
  authorize-eq-ok principal episode_id dto existing r s t c h =
      let (e, m, d, is_e, is_m, is_d, account, available, entitled, rest) =
        authorize_found principal episode_id dto existing r s t c h in
      let (here, watchable) = db.find_first_some (is_watchable s episode_id) s.episodes e is_e in
      let (m_here, of_e) = db.find_first_some (λ x. x.episode_id == e.id) s.media_assets m is_m in
      let (d_here, of_user) =
        db.find_first_some (is_device principal.id dto.device_id) s.trusted_devices d is_d in
      let (same, episode, media) =
        authorize_device-context principal e m dto existing r d s t c rest in
      let tested = authorize_device-eq-ok principal e m dto existing r d s t c rest in
      let is_id : c.episode_id ≡ episode_id = ground arith in
      (
        e,
        m,
        d,
        same,
        is_id,
        here,
        m_here,
        d_here,
        of_user,
        record {
          account = account;
          watchable = rw is_id watchable;
          available = available;
          episode = ground arith;
          media = sym media;
          entitled = rw is_id entitled;
        },
        tested,
      )
