-- ===== src/Playback.antt =====
-- src/playback/playback-token.service.ts and src/playback/playback-policy.service.ts: the signed
-- capability that a player holds, the state that Redis keeps of it, and the policy that decides
-- whether a user may watch an episode on a device. The empty string is 0, so `!payload.sid` is
-- `payload.sid == 0`. Redis is taken to be reachable.
pub mod Policy
pub mod Service
use backendurdubolonest.Base.{
  ℕ, ◌+◌, ◌*◌, Bool, true, not, ◌&&◌, ◌||◌, Option, none, some, List, [], ◌∷◌, Text, trim, ltb,
  ◌==◌, if◌then◌else◌, find, keep,
}
use backendurdubolonest.Http.{
  Error, unauthorized, Action, ◌>>=◌, ◌>>◌, pure, gets, or_raise, raise_if, modify,
}
use backendurdubolonest.Schema.{Backend, PlaybackCapabilityState}

pub record PlaybackDeviceDto : Type 0 where
  pub device_id : ℕ
  pub fingerprint : Text

-- `is_playback` is `typ === 'playback'`.
pub record PlaybackCapabilityPayload : Type 0 where
  pub sub : ℕ
  pub sid : ℕ
  pub jti : ℕ
  pub uid : ℕ
  pub eid : ℕ
  pub mid : ℕ
  pub did : ℕ
  pub fp : ℕ
  pub is_playback : Bool

-- The configuration and the packages that playback calls: SHA-256, and the JWT signature with the
-- key, the issuer and the audience of the media gateway.
pub record Player : Type 0 where
  pub hash : ℕ → ℕ
  pub sha256 : Text → ℕ
  pub sign : ℕ → PlaybackCapabilityPayload → ℕ
  -- `none` where the token is not one that was signed, or is expired.
  pub verify_signature : ℕ → ℕ → Option PlaybackCapabilityPayload
  pub capability_ttl_seconds : ℕ
  pub max_concurrent_sessions : ℕ

abbrev pub capability_invalid : Error
capability_invalid = unauthorized "Playback capability is invalid or expired"

-- What `verify` tests beside the signature.
abbrev pub is_malformed : PlaybackCapabilityPayload → Bool
is_malformed p =
    not p.is_playback
    || (not (p.sub == p.uid) || (p.sid == 0 || (p.jti == 0 || (p.did == 0 || p.fp == 0))))

abbrev other_entry : ℕ → ℕ × ℕ × PlaybackCapabilityState → Bool
other_entry jti (key, until, value) = not (key == jti)

abbrev live_entry : ℕ → ℕ → ℕ × ℕ × PlaybackCapabilityState → Bool
live_entry jti now (key, until, value) = key == jti && ltb now until

abbrev entry_value : Option (ℕ × ℕ × PlaybackCapabilityState) → Option PlaybackCapabilityState
entry_value none = none
entry_value (some (key, until, value)) = some value

-- `setJson` with an expiry, `getJson` and `delete` of src/common/redis/redis.service.ts, under
-- the key of a capability.
unfoldable pub cache : ℕ → PlaybackCapabilityState → ℕ → ℕ → Action Backend (Unit {0})
cache jti value ttl_seconds now = modify λ s. record s {
  capabilities = (jti, now + ttl_seconds * 1000, value) ∷ keep (other_entry jti) s.capabilities;
}

unfoldable pub cached : ℕ → ℕ → Backend → Option PlaybackCapabilityState
cached jti now s = entry_value (find (live_entry jti now) s.capabilities)

unfoldable pub revoke : ℕ → Action Backend (Unit {0})
revoke jti = modify λ s. record s { capabilities = keep (other_entry jti) s.capabilities }

module _ (env : Player) where
  abbrev pub fingerprint_hash : Text → ℕ
  fingerprint_hash fingerprint = env.sha256 (trim fingerprint)

  unfoldable pub verify : ℕ → ℕ → Action Backend PlaybackCapabilityPayload
  verify token now = do
    payload ← or_raise capability_invalid (env.verify_signature token now)
    raise_if (is_malformed payload) capability_invalid
    pure payload

  -- The token and when it expires.
  unfoldable pub sign_capability : PlaybackCapabilityPayload → ℕ → ℕ × ℕ
  sign_capability payload now = (env.sign now payload, now + env.capability_ttl_seconds * 1000)
