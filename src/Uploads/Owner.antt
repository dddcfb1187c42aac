-- ===== src/Uploads/Owner.antt =====
-- Who may fill, complete or cancel an upload.
use backendurdubolonest.Base.{ℕ, ◌≡◌, refl, ap, false, Option}
use backendurdubolonest.Http.{err, not_found, Action, ◌>>=◌, then_do}
use backendurdubolonest.Auth.{AuthenticatedPrincipal, Request}
use backendurdubolonest.Uploads.{
  Storage, Stamp, Staging, Bytes, is_owner, load_manifest, require_manifest,
}
use backendurdubolonest.Uploads.Chunks.{chunk}
use backendurdubolonest.Uploads.Finish.{complete, cancel}

require_manifest-foreign :
    (id now : ℕ) (actor : AuthenticatedPrincipal) (s : Staging)
    → is_owner actor (load_manifest id now s) ≡ false
    → require_manifest id actor now s ≡ (err (not_found "Upload session not found"), s)
unfolding require_manifest ◌>>=◌
require_manifest-foreign id now actor s h = rw h refl

stops :
    {A B : Type 0} (m : Action Staging A) (f : A → Action Staging B) (s : Staging)
    → m s ≡ (err (not_found "Upload session not found"), s)
    → (m >>= f) s ≡ (err (not_found "Upload session not found"), s)
unfolding ◌>>=◌
stops m f s h = ap (λ v. then_do v f) h

-- Where no manifest of the actor is alive under the identifier, that is, where there is none, where
-- it has expired, or where another user has opened the upload: `chunk`, `complete` and `cancel` all
-- end with the same `not found`, and they change nothing, neither a manifest, nor a staged chunk,
-- nor the audit trail.
pub foreign_upload :
    (env : Storage) (id : ℕ) (actor : AuthenticatedPrincipal) (r : Request) (s : Staging)
    (index : Option ℕ) (file : Option Bytes) (stamp : Stamp)
    → is_owner actor (load_manifest id r.now s) ≡ false
    → (chunk env id index file actor r s ≡ (err (not_found "Upload session not found"), s))
      × (complete env id stamp actor r s ≡ (err (not_found "Upload session not found"), s))
      × (cancel id actor r s ≡ (err (not_found "Upload session not found"), s))
unfolding chunk complete cancel
foreign_upload env id actor r s index file stamp h =
    let absent = require_manifest-foreign id r.now actor s h in
    (stops _ _ s absent, stops _ _ s absent, stops _ _ s absent)
