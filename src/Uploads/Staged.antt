-- ===== src/Uploads/Staged.antt =====
-- Every manifest in Redis is valid: rules for the writes that the uploads are made of.
use backendurdubolonest.Base.{
  ℕ, ◌≡◌, refl, subst, Bool, Option, none, some, List, [], ◌∷◌, arith, ◌==◌, if◌then◌else◌, find,
  keep, All, Option-cases, Bool-cases, inl, inr, String,
}
use backendurdubolonest.Http.{Result, ok, err, not_found, ◌>>=◌, gets, or_raise, raise_if, modify}
use backendurdubolonest.Http.Keeps.{
  Keeps, Yields, Outcome, Yields-bind, Yields-raise_if, Keeps-bind, Keeps-pure, Yields-after,
  Yields-pure, Keeps-or_raise, Keeps-raise_if, Keeps-gets, Keeps-if, keeps_rules,
}
use backendurdubolonest.Auth.{AuthenticatedPrincipal, Request}
use backendurdubolonest.Uploads.{
  UploadManifest, Staging, Bytes, is_live_manifest, not_this_manifest, save_manifest,
  delete_manifest, load_manifest, require_manifest, write_chunk, cleanup, audit_upload, await,
}
use backendurdubolonest.Uploads.Chunks.Valid.{IsValid}

abbrev pub IsValidEntry : ℕ × ℕ × UploadManifest → Type 0
IsValidEntry (key, until, m) = IsValid m

-- Every manifest in Redis is valid.
abbrev pub AreValid : Staging → Type 0
AreValid s = All IsValidEntry s.manifests

keep-All :
    (p : ℕ × ℕ × UploadManifest → Bool) (xs : List (ℕ × ℕ × UploadManifest))
    → All IsValidEntry xs
    → All IsValidEntry (keep p xs)
keep-All p [] h = tt
keep-All p (x ∷ xs) (hx, h) = elim (Bool-cases (p x)) [
  | inl e ↦ rw e (hx, keep-All p xs h)
  | inr e ↦ rw e (keep-All p xs h)
]

pub find-All :
    (p : ℕ × ℕ × UploadManifest → Bool) (xs : List (ℕ × ℕ × UploadManifest))
    (x : ℕ × ℕ × UploadManifest)
    → All IsValidEntry xs
    → find p xs ≡ some x
    → IsValidEntry x
find-All p [] x h e = cc
find-All p (y ∷ ys) x (hy, h) e = elim (Bool-cases (p y)) [
  | inl fits ↦ let same : y ≡ x = ground arith in subst IsValidEntry same hy
  | inr other ↦ find-All p ys x h (ground arith)
]

-- What `require_manifest` ends with, given what the search for the manifest found.
abbrev pub answer :
    AuthenticatedPrincipal
    → Option (ℕ × ℕ × UploadManifest)
    → Staging
    → Result UploadManifest × Staging
answer actor none s = (err (not_found "Upload session not found"), s)
answer actor (some (key, until, m)) s =
    (if m.actor_id == actor.id then ok m else err (not_found "Upload session not found"), s)

pub require_manifest-answer :
    (id now : ℕ) (actor : AuthenticatedPrincipal) (s : Staging)
    (found : Option (ℕ × ℕ × UploadManifest))
    → find (is_live_manifest id now) s.manifests ≡ found
    → require_manifest id actor now s ≡ answer actor found s
unfolding require_manifest load_manifest ◌>>=◌ gets raise_if or_raise
require_manifest-answer id now actor s none e = rw e refl
require_manifest-answer id now actor s (some (key, until, m)) e =
    elim (Bool-cases (m.actor_id == actor.id)) [
      | inl own ↦ rw (e, own) refl
      | inr other ↦ rw (e, other) refl
    ]

pub Keeps-save_manifest :
    (id now : ℕ) (m : UploadManifest) → IsValid m → Keeps AreValid (save_manifest id m now)
unfolding save_manifest modify
Keeps-save_manifest id now m valid = record {
  at = λ s h. (valid, keep-All (not_this_manifest id) s.manifests h);
}

pub Keeps-delete_manifest : (id : ℕ) → Keeps AreValid (delete_manifest id)
unfolding delete_manifest modify
Keeps-delete_manifest id = record { at = λ s h. keep-All (not_this_manifest id) s.manifests h }

pub Keeps-write_chunk : (id i : ℕ) (bytes : Bytes) → Keeps AreValid (write_chunk id i bytes)
unfolding write_chunk modify
Keeps-write_chunk id i bytes = record { at = λ s h. h }

pub Keeps-cleanup : (id : ℕ) → Keeps AreValid (cleanup id)
unfolding cleanup modify
Keeps-cleanup id = record { at = λ s h. h }

pub Keeps-audit_upload :
    (action : String) (actor : AuthenticatedPrincipal) (id : ℕ) (r : Request)
    → Keeps AreValid (audit_upload action actor id r)
unfolding audit_upload modify
Keeps-audit_upload action actor id r = record { at = λ s h. h }

pub Keeps-await : {A : Type 0} (v : Result A) → Keeps AreValid (await v)
unfolding await
Keeps-await (ok a) = record { at = λ s h. h }
Keeps-await (err e) = record { at = λ s h. h }

answer-IsValid :
    (actor : AuthenticatedPrincipal) (x : ℕ × ℕ × UploadManifest) (s : Staging)
    → AreValid s
    → IsValidEntry x
    → Outcome AreValid IsValid (answer actor (some x) s)
answer-IsValid actor (key, until, m) s h valid = elim (Bool-cases (m.actor_id == actor.id)) [
  | inl own ↦ rw own (h, valid)
  | inr other ↦ rw other h
]

pub Yields-require_manifest :
    (id : ℕ) (actor : AuthenticatedPrincipal) (now : ℕ)
    → Yields AreValid IsValid (require_manifest id actor now)
Yields-require_manifest id actor now = record {
  at = λ s h. elim (Option-cases (find (is_live_manifest id now) s.manifests)) [
    | inl e ↦ rw (require_manifest-answer id now actor s none e) h
    | inr (x, e) ↦
        rw (require_manifest-answer id now actor s (some x) e)
          (answer-IsValid actor x s h (find-All (is_live_manifest id now) s.manifests x h e))
  ];
}

pub ruleset staging_rules = (
  keeps_rules, Keeps-save_manifest, Keeps-delete_manifest, Keeps-write_chunk, Keeps-cleanup,
  Keeps-audit_upload, Keeps-await,
)
