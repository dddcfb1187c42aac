-- ===== src/Playback/Service/Ending.antt =====
-- A playback session that has ended stays ended, and its capability opens nothing.
use backendurdubolonest.Base.{
  ℕ, ◌≡◌, ◌≢◌, sym, ap, ◌∙◌, Bool, true, false, ◌&&◌, Option, none, some, List, inl, inr, arith,
  ◌==◌, any, map_where, Among, Option-cases,
}
use backendurdubolonest.Prisma.{Prisma}
use backendurdubolonest.Prisma.Rows.{any-of-Among, any-map_where_cleared}
use backendurdubolonest.Http.{ok, ◌>>=◌}
use backendurdubolonest.Http.Inversion.{bind-eq-ok}
use backendurdubolonest.Schema.{
  Backend, PlaybackSession, PlaybackCapabilityState, PlaybackStatus, is_playback_active,
}
use backendurdubolonest.Audit.{write_audit}
use backendurdubolonest.Auth.{AuthenticatedPrincipal, Request}
use backendurdubolonest.Playback.{
  PlaybackDeviceDto, PlaybackCapabilityPayload, Player, cached, revoke, verify,
}
use backendurdubolonest.Playback.Policy.{PlaybackAuthorizationContext, authorize}
use backendurdubolonest.Playback.Policy.Sound.{authorize-eq-ok}
use backendurdubolonest.Playback.Service.{update_playbacks, update_history, security_event}
use backendurdubolonest.Playback.Service.Capability.{
  validate_capability, validate_entry, validate_scope, touch_bound, bound_session, is_bound,
}
use backendurdubolonest.Playback.Service.Running.{stop, stop_rows, revoke_cached}

-- A session with the identifier runs, for the user.
abbrev pub is_active_playback : ℕ → ℕ → PlaybackSession → Bool
is_active_playback id user_id x =
    x.id == id && (x.user_id == user_id && is_playback_active x.status)

closed-any :
    (id user_id now : ℕ) (rows : List PlaybackSession)
    → any (is_active_playback id user_id) (
        map_where
          (is_active_playback id user_id)
          (λ x. record x {
            status = PlaybackStatus.closed;
            closed_at = some now;
            last_seen_at = now;
          })
          rows)
      ≡ false
closed-any id user_id now rows =
    any-map_where_cleared (is_active_playback id user_id) _ rows (λ x. ground arith)

module _ (db : Prisma) (env : Player) where
  -- After `stop` the user has no active session with that identifier.
  stop-active :
      (session_id token : ℕ) (dto : PlaybackDeviceDto) (principal : AuthenticatedPrincipal)
      (r : Request) (s t : Backend)
      → stop db env session_id token dto principal r s ≡ (ok tt, t)
      → any (is_active_playback session_id principal.id) t.playback_sessions ≡ false
  unfolding stop stop_rows revoke_cached update_playbacks update_history revoke write_audit ◌>>=◌
  stop-active session_id token dto principal r s t h = grind (arith, db.update_many_lem, closed-any)

  authorize-state :
      (principal : AuthenticatedPrincipal) (episode_id : ℕ) (dto : PlaybackDeviceDto)
      (existing : Bool) (r : Request) (s t : Backend) (c : PlaybackAuthorizationContext)
      → authorize db env principal episode_id dto existing r s ≡ (ok c, t)
      → t ≡ s
  authorize-state principal episode_id dto existing r s t c h =
      let (_, _, _, same, _, _, _, _, _, _, _) =
        authorize-eq-ok db env principal episode_id dto existing r s t c h in
      same

  touch_bound-eq-ok :
      (session_id : ℕ) (payload : PlaybackCapabilityPayload) (entry : PlaybackCapabilityState)
      (principal : AuthenticatedPrincipal) (r : Request) (found : Option PlaybackSession)
      (s t : Backend) (x : PlaybackSession)
      → touch_bound db env session_id payload entry principal r found s ≡ (ok x, t)
      → found ≡ some x
  unfolding touch_bound ◌>>=◌
  touch_bound-eq-ok session_id payload entry principal r none s t x h = ground arith
  touch_bound-eq-ok session_id payload entry principal r (some y) s t x h = ground arith

  validate_scope-eq-ok :
      (session_id token : ℕ) (payload : PlaybackCapabilityPayload) (dto : PlaybackDeviceDto)
      (principal : AuthenticatedPrincipal) (r : Request) (entry : PlaybackCapabilityState)
      (policy : PlaybackAuthorizationContext) (s t : Backend) (x : PlaybackSession)
      → validate_scope db env session_id token payload dto principal r entry policy s ≡ (ok x, t)
      → bound_session db env session_id token payload principal.id dto r.now s ≡ some x
  unfolding validate_scope ◌>>=◌
  validate_scope-eq-ok session_id token payload dto principal r entry policy s t x h = ground (
    arith,
    touch_bound-eq-ok session_id payload entry principal r
        (bound_session db env session_id token payload principal.id dto r.now s) s t x,
  )

  validate_entry-scope :
      (session_id token : ℕ) (payload : PlaybackCapabilityPayload) (dto : PlaybackDeviceDto)
      (principal : AuthenticatedPrincipal) (r : Request) (entry : PlaybackCapabilityState)
      (s t : Backend) (x : PlaybackSession)
      → validate_entry db env session_id token payload dto principal r entry s ≡ (ok x, t)
      → (authorize db env principal payload.eid dto true r
            >>= validate_scope db env session_id token payload dto principal r entry)
          s
        ≡ (ok x, t)
  unfolding validate_entry ◌>>=◌
  validate_entry-scope session_id token payload dto principal r entry s t x h = ground arith

  validate_entry-eq-ok :
      (session_id token : ℕ) (payload : PlaybackCapabilityPayload) (dto : PlaybackDeviceDto)
      (principal : AuthenticatedPrincipal) (r : Request) (entry : PlaybackCapabilityState)
      (s t : Backend) (x : PlaybackSession)
      → validate_entry db env session_id token payload dto principal r entry s ≡ (ok x, t)
      → bound_session db env session_id token payload principal.id dto r.now s ≡ some x
  validate_entry-eq-ok session_id token payload dto principal r entry s t x h =
      let (policy, u, answered, rest) =
        bind-eq-ok (authorize db env principal payload.eid dto true r)
          (validate_scope db env session_id token payload dto principal r entry) s t x
          (validate_entry-scope session_id token payload dto principal r entry s t x h) in
      ap (bound_session db env session_id token payload principal.id dto r.now)
        (sym (authorize-state principal payload.eid dto true r s u policy answered))
      ∙ validate_scope-eq-ok session_id token payload dto principal r entry policy u t x rest

  validate_capability-entry :
      (session_id token : ℕ) (dto : PlaybackDeviceDto) (principal : AuthenticatedPrincipal)
      (r : Request) (s t : Backend) (x : PlaybackSession)
      → validate_capability db env session_id token dto principal r s ≡ (ok x, t)
      → (payload : PlaybackCapabilityPayload) × (entry : PlaybackCapabilityState)
        × (env.verify_signature token r.now ≡ some payload)
        × (cached payload.jti r.now s ≡ some entry)
        × (payload.sid ≡ session_id)
        × (payload.uid ≡ principal.id)
        × (payload.did ≡ dto.device_id)
        × (validate_entry db env session_id token payload dto principal r entry s ≡ (ok x, t))
  unfolding validate_capability verify security_event write_audit ◌>>=◌
  validate_capability-entry session_id token dto principal r s t x h =
      elim (Option-cases (env.verify_signature token r.now)) [
        | inl e ↦ ground arith
        | inr (payload, is_payload) ↦ elim (Option-cases (cached payload.jti r.now s)) [
          | inl e ↦ ground arith
          | inr (entry, is_entry) ↦ (
            payload,
            entry,
            is_payload,
            is_entry,
            ground arith,
            ground arith,
            ground arith,
            ground arith,
          )
        ]
      ]

  -- When `validateCapability` accepts a token for a session, the token is signed for this session,
  -- this user and this device; Redis still has its capability; and the session is a row that is
  -- active and not expired, has this very token as its current one, and stands on an active device
  -- with the fingerprint that was sent.
  pub validate_capability-eq-ok :
      (session_id token : ℕ) (dto : PlaybackDeviceDto) (principal : AuthenticatedPrincipal)
      (r : Request) (s t : Backend) (x : PlaybackSession)
      → validate_capability db env session_id token dto principal r s ≡ (ok x, t)
      → (payload : PlaybackCapabilityPayload) × (entry : PlaybackCapabilityState)
        × (env.verify_signature token r.now ≡ some payload)
        × (cached payload.jti r.now s ≡ some entry)
        × (payload.sid ≡ session_id)
        × (payload.uid ≡ principal.id)
        × (payload.did ≡ dto.device_id)
        × Among x s.playback_sessions
        × (is_bound env session_id token payload principal.id dto r.now s x ≡ true)
  unfolding bound_session
  validate_capability-eq-ok session_id token dto principal r s t x h =
      let (payload, entry, signed, kept, sid, uid, did, rest) =
        validate_capability-entry session_id token dto principal r s t x h in
      let (there, fits) =
        db.find_first_some (is_bound env session_id token payload principal.id dto r.now s)
          s.playback_sessions x
          (validate_entry-eq-ok session_id token payload dto principal r entry s t x rest) in
      (payload, entry, signed, kept, sid, uid, did, there, fits)

  -- No token opens a session that is not active.
  validate_capability-inactive :
      (session_id token : ℕ) (dto : PlaybackDeviceDto) (principal : AuthenticatedPrincipal)
      (r : Request) (s : Backend) (x : PlaybackSession)
      → any (is_active_playback session_id principal.id) s.playback_sessions ≡ false
      → (validate_capability db env session_id token dto principal r s).0 ≢ ok x
  validate_capability-inactive session_id token dto principal r s x none_active accepted =
      let (_, _, _, _, _, _, _, there, fits) =
        validate_capability-eq-ok session_id token dto principal r s
          (validate_capability db env session_id token dto principal r s).1 x
          (λ i. (accepted i, (validate_capability db env session_id token dto principal r s).1)) in
      ground (
        arith,
        none_active,
        any-of-Among (is_active_playback session_id principal.id) x s.playback_sessions there,
      )

  -- In the state that `stop` leaves, no token and no device passes `validateCapability` for that
  -- session of the user, at whatever time.
  pub stop-validate_capability :
      (session_id token token' : ℕ) (dto dto' : PlaybackDeviceDto)
      (principal : AuthenticatedPrincipal) (r r' : Request) (s t : Backend) (x : PlaybackSession)
      → stop db env session_id token dto principal r s ≡ (ok tt, t)
      → (validate_capability db env session_id token' dto' principal r' t).0 ≢ ok x
  stop-validate_capability session_id token token' dto dto' principal r r' s t x h =
      validate_capability-inactive session_id token' dto' principal r' t x
        (stop-active session_id token dto principal r s t h)
