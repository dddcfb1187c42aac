-- ===== src/Uploads/Steps.antt =====
-- Any sequence of upload operations, and what every manifest in Redis satisfies after it.
use backendurdubolonest.Base.{
  ℕ, zero, suc, ◌+◌, ◌≡◌, refl, Bool, true, false, Option, none, some, [], arith, ltb,
  if◌then◌else◌, length,
}
use backendurdubolonest.Http.{pure}
use backendurdubolonest.Http.Keeps.{
  Keeps, Yields, Yields-bind, Yields-raise_if, Keeps-bind, Keeps-pure, Yields-after, Yields-pure,
  Keeps-or_raise, Keeps-raise_if, Keeps-gets,
}
use backendurdubolonest.Auth.{AuthenticatedPrincipal, Request}
use backendurdubolonest.Uploads.{
  InitUploadDto, R2Upload, UploadManifest, Storage, Stamp, Staging, Bytes,
}
use backendurdubolonest.Uploads.Manifest.{open_r2, open_multipart, init}
use backendurdubolonest.Uploads.Chunks.{store_chunk, add_chunk, chunk}
use backendurdubolonest.Uploads.Chunks.Order.{is_increasing, add_chunk-increasing, add_chunk-all}
use backendurdubolonest.Uploads.Chunks.Valid.{R2Fits, put_part-PartsFit}
use backendurdubolonest.Uploads.Finish.{
  complete, complete_found, complete_r2, complete_staged, read_chunks, forward, forward_to_r2,
  forward_by_post, discard, cancel,
}
use backendurdubolonest.Uploads.Staged.{
  AreValid, Keeps-save_manifest, Keeps-write_chunk, Keeps-cleanup, Keeps-await,
  Yields-require_manifest, staging_rules,
}

module _ (env : Storage) where
  -- The parts at R2 fit the chunks again, with the new one among them.
  store_chunk-fits :
      (m : UploadManifest) (i : ℕ) (bytes : Bytes) (r2 : Option R2Upload)
      → is_increasing m.chunks ≡ true
      → R2Fits r2 m.chunks
      → Yields AreValid (λ q. R2Fits q (add_chunk i m.chunks)) (store_chunk env m i bytes r2)
  unfolding store_chunk
  store_chunk-fits m i bytes none h fit =
      let fits : Option R2Upload → Type 0 = λ q. R2Fits q (add_chunk i m.chunks) in
      Yields-after _ _ fits (Keeps-write_chunk m.upload_id i bytes) (λ _. Yields-pure fits none tt)
  store_chunk-fits m i bytes (some u) h fit =
      let fits : Option R2Upload → Type 0 = λ q. R2Fits q (add_chunk i m.chunks) in
      Yields-after _ _ fits (Keeps-raise_if _ _) (λ _. Yields-after _ _ fits (Keeps-await _) (λ _.
        Yields-after _ _ fits (Keeps-or_raise _ _)
          (λ e. Yields-pure fits _ (put_part-PartsFit i e (length bytes) u m.chunks h fit))))

  Keeps-chunk :
      (id : ℕ) (index : Option ℕ) (file : Option Bytes) (actor : AuthenticatedPrincipal)
      (r : Request)
      → Keeps AreValid (chunk env id index file actor r)
  unfolding chunk
  Keeps-chunk id index file actor r =
      Yields-bind _ _ (Yields-require_manifest id actor r.now) (λ m valid.
        Keeps-bind _ _ (Keeps-or_raise _ _) (λ i. Yields-bind _ _ (Yields-raise_if _ _) (λ _ small.
          Keeps-bind _ _ (Keeps-or_raise _ _) (λ bytes. Keeps-bind _ _ (Keeps-raise_if _ _) (λ _.
            Yields-bind _ _ (store_chunk-fits m i bytes m.r2 valid.increasing valid.r2) (λ q fit.
              Keeps-bind _ _
                (Keeps-save_manifest id r.now _ (record {
                  increasing = add_chunk-increasing i m.chunks valid.increasing;
                  below =
                      add_chunk-all (λ j. ltb j m.dto.total_chunks) i m.chunks valid.increasing
                        (ground arith) valid.below;
                  r2 = fit;
                }))
                (λ _. search staging_rules depth 10)))))))

  open_r2-fits :
      (dto : InitUploadDto) (stamp : Stamp)
      → Yields AreValid (λ q. R2Fits q []) (open_r2 env dto stamp)
  unfolding open_r2
  open_r2-fits dto stamp =
      let fits : Option R2Upload → Type 0 = λ q. R2Fits q [] in
      Yields-after _ _ fits (Keeps-raise_if _ _) (λ _. Yields-after _ _ fits (Keeps-await _) (λ _.
        Yields-after _ _ fits (Keeps-or_raise _ _) (λ e.
          Yields-pure fits _
            (record { same = λ j. refl; distinct = refl; numbered = refl; bytes = refl }))))

  opened-fits :
      (b : Bool) (dto : InitUploadDto) (stamp : Stamp)
      → Yields AreValid (λ q. R2Fits q []) (if b then open_r2 env dto stamp else pure none)
  opened-fits true dto stamp = open_r2-fits dto stamp
  opened-fits false dto stamp = Yields-pure (λ q. R2Fits q []) none tt

  Keeps-init :
      (dto : InitUploadDto) (stamp : Stamp) (actor : AuthenticatedPrincipal) (r : Request)
      → Keeps AreValid (init env dto stamp actor r)
  unfolding init open_multipart
  Keeps-init dto stamp actor r = Keeps-bind _ _ (Keeps-raise_if _ _) (λ _.
      Yields-bind _ _ (opened-fits env.has_r2 dto stamp) (λ q fit.
        Keeps-bind _ _
          (Keeps-save_manifest stamp.id r.now _
            (record { increasing = refl; below = refl; r2 = fit }))
          (λ _. search staging_rules depth 10)))

  Keeps-read_chunks : (id i left : ℕ) → Keeps AreValid (read_chunks env id i left)
  unfolding read_chunks
  Keeps-read_chunks id i zero = search staging_rules depth 10
  Keeps-read_chunks id i (suc left) =
      Keeps-bind _ _ (Keeps-bind _ _ (Keeps-gets _) (λ found. Keeps-or_raise _ found))
        (λ bytes. Keeps-bind _ _ (Keeps-read_chunks id (i + 1) left) (λ rest. Keeps-pure _))

  Keeps-forward_by_post :
      (m : UploadManifest) (file : Bytes) → Keeps AreValid (forward_by_post env m file)
  unfolding forward_by_post
  Keeps-forward_by_post m file = search staging_rules depth 30

  Keeps-forward :
      (m : UploadManifest) (stamp : Stamp) (file : Bytes)
      → Keeps AreValid (forward env m stamp file)
  unfolding forward forward_to_r2
  Keeps-forward m stamp file = search (staging_rules, Keeps-forward_by_post) depth 20

  Keeps-complete_found :
      (m : UploadManifest) (id : ℕ) (stamp : Stamp) (actor : AuthenticatedPrincipal) (r : Request)
      (r2 : Option R2Upload)
      → Keeps AreValid (complete_found env m id stamp actor r r2)
  unfolding complete_found complete_r2 complete_staged
  Keeps-complete_found m id stamp actor r none =
      search (staging_rules, Keeps-read_chunks, Keeps-forward) depth 40
  Keeps-complete_found m id stamp actor r (some u) = search staging_rules depth 40

  Keeps-complete :
      (id : ℕ) (stamp : Stamp) (actor : AuthenticatedPrincipal) (r : Request)
      → Keeps AreValid (complete env id stamp actor r)
  unfolding complete
  Keeps-complete id stamp actor r =
      Yields-bind _ _ (Yields-require_manifest id actor r.now)
        (λ m _. search (staging_rules, Keeps-complete_found) depth 10)

Keeps-discard : (id : ℕ) (r2 : Option R2Upload) → Keeps AreValid (discard id r2)
unfolding discard
Keeps-discard id none = Keeps-cleanup id
Keeps-discard id (some u) = Keeps-pure tt

Keeps-cancel :
    (id : ℕ) (actor : AuthenticatedPrincipal) (r : Request) → Keeps AreValid (cancel id actor r)
unfolding cancel
Keeps-cancel id actor r =
    Yields-bind _ _ (Yields-require_manifest id actor r.now)
      (λ m _. search (staging_rules, Keeps-discard) depth 20)

-- One request to the service, whatever it ends with.
pub data UploadStep (env : Storage) : Staging → Staging → Type 0 where
  init_step :
      (dto : InitUploadDto) (stamp : Stamp) (actor : AuthenticatedPrincipal) (r : Request)
      (s : Staging)
      → UploadStep env s (init env dto stamp actor r s).1
  chunk_step :
      (id : ℕ) (index : Option ℕ) (file : Option Bytes) (actor : AuthenticatedPrincipal)
      (r : Request) (s : Staging)
      → UploadStep env s (chunk env id index file actor r s).1
  complete_step :
      (id : ℕ) (stamp : Stamp) (actor : AuthenticatedPrincipal) (r : Request) (s : Staging)
      → UploadStep env s (complete env id stamp actor r s).1
  cancel_step :
      (id : ℕ) (actor : AuthenticatedPrincipal) (r : Request) (s : Staging)
      → UploadStep env s (cancel id actor r s).1

-- Any sequence of requests.
pub data UploadReach (env : Storage) : Staging → Staging → Type 0 where
  start : (s : Staging) → UploadReach env s s
  more : {s t u : Staging} → UploadReach env s t → UploadStep env t u → UploadReach env s u

UploadStep-AreValid : (env : Storage) (s t : Staging) → UploadStep env s t → AreValid s → AreValid t
UploadStep-AreValid env _ _ (UploadStep.init_step dto stamp actor r s) h =
    (Keeps-init env dto stamp actor r).at s h
UploadStep-AreValid env _ _ (UploadStep.chunk_step id index file actor r s) h =
    (Keeps-chunk env id index file actor r).at s h
UploadStep-AreValid env _ _ (UploadStep.complete_step id stamp actor r s) h =
    (Keeps-complete env id stamp actor r).at s h
UploadStep-AreValid env _ _ (UploadStep.cancel_step id actor r s) h =
    (Keeps-cancel id actor r).at s h

-- Whatever sequence of requests to open, fill, complete or cancel uploads is served, and whatever
-- each of them ends with: if every manifest in Redis is valid before, every manifest is valid after
-- it. In a valid manifest the received chunks are in increasing order and below the total, and an
-- upload to R2 has exactly one part for each received chunk, numbered one above it, with the sum of
-- the parts' sizes as its count of bytes.
pub UploadReach-AreValid :
    (env : Storage) (s t : Staging) → UploadReach env s t → AreValid s → AreValid t
UploadReach-AreValid env _ _ (UploadReach.start s) h = h
UploadReach-AreValid env s u (UploadReach.more {t = t} reach step) h =
    UploadStep-AreValid env t u step (UploadReach-AreValid env s t reach h)
