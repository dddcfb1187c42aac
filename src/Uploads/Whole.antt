-- ===== src/Uploads/Whole.antt =====
-- What `complete` has stored when it returns: the whole file.
use backendurdubolonest.Base.{
  ℕ, ◌≡◌, refl, sym, ap, subst, ◌≢◌, ◌∙◌, Bool, true, false, Option, none, some, Text, arith, ltb,
  ◌==◌, if◌then◌else◌, find, all, length, Bool-cases, Option-cases, inl, inr,
}
use backendurdubolonest.Http.{Result, ok, err, Error}
use backendurdubolonest.Http.Inversion.{bind-eq-ok, raise_if-bind-ok, pure-eq-ok}
use backendurdubolonest.Uploads.Manifest.{is_episode_video}
use backendurdubolonest.Auth.{AuthenticatedPrincipal, Request}
use backendurdubolonest.Uploads.{
  R2Upload, UploadManifest, Remote, Storage, Stamp, Staging, load_manifest, require_manifest,
  is_live_manifest, manifest_value, await,
}
use backendurdubolonest.Uploads.Chunks.Valid.{IsValid, R2Fits, sum_sizes}
use backendurdubolonest.Uploads.Finish.{
  Completed, listed_parts, complete, complete_found, complete_r2, complete_staged, r2_answer,
  staged_answer,
}
use backendurdubolonest.Uploads.Staged.{AreValid, answer, require_manifest-answer, find-All}
use backendurdubolonest.Uploads.Numbers.{range, part_numbers, chunks-range, listed_parts-range}

-- What `require_manifest` has found when it returns.
record Owned (id now : ℕ) (actor : AuthenticatedPrincipal) (s u : Staging) (m : UploadManifest)
    : Type 0 where
  found : load_manifest id now s ≡ some m
  own : m.actor_id ≡ actor.id
  valid : IsValid m
  kept : u ≡ s

chosen-ok :
    {A : Type 0} (b : Bool) (e : Error) (n m : A) (s u : Staging)
    → ◌≡◌ {A = Result A × Staging} (if b then ok n else err e, s) (ok m, u)
    → (b ≡ true) × (n ≡ m) × (u ≡ s)
chosen-ok true e n m s u a =
    let same : n ≡ m = ground arith in let kept : u ≡ s = ground arith in (refl, same, kept)
chosen-ok false e n m s u a = ground arith

Owned-answer :
    (id now : ℕ) (actor : AuthenticatedPrincipal) (s u : Staging) (x : ℕ × ℕ × UploadManifest)
    (m : UploadManifest)
    → AreValid s
    → find (is_live_manifest id now) s.manifests ≡ some x
    → answer actor (some x) s ≡ (ok m, u)
    → Owned id now actor s u m
unfolding load_manifest
Owned-answer id now actor s u (key, until, n) m h e a =
    let (own, same, kept) = chosen-ok (n.actor_id == actor.id) _ n m s u a in
    let valid : IsValid n = find-All (is_live_manifest id now) s.manifests (key, until, n) h e in
    record {
      found = ap manifest_value e ∙ ap some same;
      own = ground (arith, own, ap (λ k. k.actor_id) same);
      valid = subst IsValid same valid;
      kept = kept;
    }

absent_answer :
    (actor : AuthenticatedPrincipal) (s u : Staging) (m : UploadManifest)
    → answer actor none s ≢ (ok m, u)
absent_answer actor s u m h = ground arith

require_manifest-eq-ok :
    (id now : ℕ) (actor : AuthenticatedPrincipal) (s u : Staging) (m : UploadManifest)
    → AreValid s
    → require_manifest id actor now s ≡ (ok m, u)
    → Owned id now actor s u m
require_manifest-eq-ok id now actor s u m h e =
    elim (Option-cases (find (is_live_manifest id now) s.manifests)) [
      | inl f ↦
          absurd
            (absent_answer actor s u m (sym (require_manifest-answer id now actor s none f) ∙ e))
      | inr (x, f) ↦
          Owned-answer id now actor s u x m h f
            (sym (require_manifest-answer id now actor s (some x) f) ∙ e)
    ]

-- What a completed upload to R2 consists of, and what the storage has answered to the command that
-- completes it from the listed parts.
abbrev pub IsWhole : Storage → UploadManifest → Option R2Upload → Type 0
IsWhole env m none = Unit {0}
IsWhole env m (some u) =
    (env.complete_multipart u.key u.provider_upload_id (listed_parts u.parts) ≡ ok tt)
    × (part_numbers (listed_parts u.parts) ≡ range 1 m.dto.total_chunks)
    × (sum_sizes u.parts ≡ m.dto.size_bytes)

module _ (env : Storage) (m : UploadManifest) (id : ℕ) (actor : AuthenticatedPrincipal)
    (r : Request) where
  r2_answer-size : (u : R2Upload) → (r2_answer env m u).file_size ≡ u.uploaded_bytes
  r2_answer-size u = elim (Bool-cases (is_episode_video m.dto.purpose)) [
    | inl e ↦ rw e refl
    | inr e ↦ rw e refl
  ]

  await-eq-ok :
      (v : Result (Unit {0})) (a : Unit {0}) (s t : Staging) → await v s ≡ (ok a, t) → v ≡ ok tt
  unfolding await
  await-eq-ok (ok tt) a s t h = refl
  await-eq-ok (err e) a s t h = ground arith

  complete_r2-eq-ok :
      (u : R2Upload) (s t : Staging) (c : Completed)
      → complete_r2 env m u id actor r s ≡ (ok c, t)
      → (length u.parts ≡ m.dto.total_chunks)
        × (u.uploaded_bytes ≡ m.dto.size_bytes)
        × (c.file_size ≡ m.dto.size_bytes)
        × (env.complete_multipart u.key u.provider_upload_id (listed_parts u.parts) ≡ ok tt)
  unfolding complete_r2
  complete_r2-eq-ok u s t c h =
      let (e1, h1) = raise_if-bind-ok _ _ _ s t c h in
      let (e2, h2) = raise_if-bind-ok _ _ _ s t c h1 in
      let (a, s3, sent, h3) = bind-eq-ok _ _ s t c h2 in
      let (_, s4, _, h4) = bind-eq-ok _ _ s3 t c h3 in
      let (_, s5, _, h5) = bind-eq-ok _ _ s4 t c h4 in
      let bytes : u.uploaded_bytes ≡ m.dto.size_bytes = ground (arith, e2) in
      (
        ground (arith, e1),
        bytes,
        sym (ap (λ (k : Completed). k.file_size) (pure-eq-ok _ c s5 t h5).0)
            ∙ r2_answer-size u
            ∙ bytes,
        await-eq-ok _ a s s3 sent,
      )

  staged_answer-size :
      (size : ℕ) (staged : Text) (remote : Remote) (url : Option Text)
      → (staged_answer env size staged remote url).file_size ≡ size
  staged_answer-size size staged remote none = refl
  staged_answer-size size staged remote (some u) = refl

  complete_staged-eq-ok :
      (stamp : Stamp) (s t : Staging) (c : Completed)
      → complete_staged env m id stamp actor r s ≡ (ok c, t)
      → c.file_size ≡ m.dto.size_bytes
  unfolding complete_staged
  complete_staged-eq-ok stamp s t c h =
      let (file, s1, _, h1) = bind-eq-ok _ _ s t c h in
      let (e2, h2) = raise_if-bind-ok _ _ _ s1 t c h1 in
      let (remote, s3, _, h3) = bind-eq-ok _ _ s1 t c h2 in
      let (_, s4, _, h4) = bind-eq-ok _ _ s3 t c h3 in
      let (_, s5, _, h5) = bind-eq-ok _ _ s4 t c h4 in
      let (_, s6, _, h6) = bind-eq-ok _ _ s5 t c h5 in
      sym (ap (λ (k : Completed). k.file_size) (pure-eq-ok _ c s6 t h6).0)
      ∙ staged_answer-size (length file) _ remote _
      ∙ ground (arith, e2)

  complete_found-IsWhole :
      (stamp : Stamp) (r2 : Option R2Upload) (s t : Staging) (c : Completed)
      → R2Fits r2 m.chunks
      → all (λ i. ltb i m.dto.total_chunks) m.chunks ≡ true
      → complete_found env m id stamp actor r r2 s ≡ (ok c, t)
      → (c.file_size ≡ m.dto.size_bytes) × IsWhole env m r2
  unfolding complete_found
  complete_found-IsWhole stamp none s t c fit below h = (complete_staged-eq-ok stamp s t c h, tt)
  complete_found-IsWhole stamp (some u) s t c fit below h =
      let (n, bytes, size, sent) = complete_r2-eq-ok u s t c h in
      (
        size,
        (sent, listed_parts-range m.dto.total_chunks u m.chunks fit below n, sym fit.bytes ∙ bytes),
      )

-- `complete` returns only for an upload of which nothing is missing. Where every manifest is valid:
-- if it returns, then the actor has opened the upload, its manifest lists the chunks from zero to the
-- total without a gap, the answered size is the one announced when the upload was opened, and, of an
-- upload to R2, the storage has accepted the command that completes the upload from the parts that the
-- manifest lists, sent in the order of their numbers; these are the numbers from one to the total, and
-- the sizes of the parts sum up to the announced size.
pub complete-eq-ok :
    (env : Storage) (id : ℕ) (stamp : Stamp) (actor : AuthenticatedPrincipal) (r : Request)
    (s t : Staging) (c : Completed)
    → AreValid s
    → complete env id stamp actor r s ≡ (ok c, t)
    → (m : UploadManifest) × (load_manifest id r.now s ≡ some m)
      × (m.actor_id ≡ actor.id)
      × (m.chunks ≡ range 0 m.dto.total_chunks)
      × (c.file_size ≡ m.dto.size_bytes)
      × IsWhole env m m.r2
unfolding complete
complete-eq-ok env id stamp actor r s t c h e =
    let (m, s1, e1, h1) = bind-eq-ok _ _ s t c e in
    let owned = require_manifest-eq-ok id r.now actor s s1 m h e1 in
    let (full, h2) = raise_if-bind-ok _ _ _ s1 t c h1 in
    let (size, whole) =
      complete_found-IsWhole env m id actor r stamp m.r2 s1 t c owned.valid.r2 owned.valid.below
        h2 in
    (m, owned.found, owned.own, chunks-range m owned.valid (ground (arith, full)), size, whole)
