-- ===== src/Tests/UploadRuns.antt =====
-- Runs of the uploads, and their theorems at these runs.
use backendurdubolonest.Base.{◌≡◌, refl, arith, true, none, some, [], ◌∷◌, length, codes}
use backendurdubolonest.Http.{ok, err, not_found, ◌>>=◌}
use backendurdubolonest.Uploads.{
  Purpose, InitUploadDto, UploadManifest, Storage, Stamp, Staging, save_manifest, delete_manifest,
  load_manifest, require_manifest, write_chunk, read_chunk, cleanup, audit_upload, await,
}
use backendurdubolonest.Uploads.Manifest.{
  extension, storage_key, strip_slashes, open_r2, open_multipart, init,
}
use backendurdubolonest.Uploads.Chunks.{
  put_part, store_chunk, add_chunk, insert_ordered, sort, chunk,
}
use backendurdubolonest.Uploads.Finish.{
  Completed, insert_part, sort_parts, listed_parts, complete_r2, read_chunks, complete_staged,
  complete_found, complete, forward, forward_to_r2, forward_by_post, discard, cancel,
}
use backendurdubolonest.Uploads.Staged.{AreValid}
use backendurdubolonest.Uploads.Steps.{UploadStep, UploadReach, UploadReach-AreValid}
use backendurdubolonest.Uploads.Numbers.{range}
use backendurdubolonest.Uploads.Whole.{IsWhole, complete-eq-ok}
use backendurdubolonest.Uploads.Pieces.{stage, read_chunks-stage}
use backendurdubolonest.Uploads.Owner.{foreign_upload}
use backendurdubolonest.Tests.Sample.{request, principal}

opened : Unit {0}
unfolding ◌>>=◌ save_manifest delete_manifest load_manifest require_manifest write_chunk read_chunk
    cleanup audit_upload await extension storage_key strip_slashes open_r2 open_multipart init
    put_part store_chunk add_chunk insert_ordered sort chunk insert_part sort_parts listed_parts
    complete_r2 read_chunks complete_staged complete_found complete forward forward_to_r2
    forward_by_post discard cancel
opened = tt

-- A bucket that accepts everything; the tag of a part is its size.
abbrev bucket : Storage
bucket = record {
  has_r2 = true;
  bucket = codes "media";
  public_base_url = codes "https://cdn.example/";
  max_upload_bytes = 100;
  extname = λ name. codes ".mp4";
  lower_case = λ t. t;
  encrypt = λ t. t;
  create_multipart = λ key mime. ok (some 7);
  upload_part = λ key upload number bytes. ok (some (length bytes));
  complete_multipart = λ key upload parts. ok tt;
  put_object = λ key bytes. ok tt;
  upload_url = [];
  protocol = λ url. none;
  fetch = λ m bytes. err (not_found "");
}

abbrev film : InitUploadDto
film = record {
  purpose = Purpose.apk;
  target_id = none;
  original_name = codes "film.mp4";
  mime_type = codes "video/mp4";
  size_bytes = 3;
  total_chunks = 1;
}

abbrev stamp : Stamp
stamp = record {
  id = 61;
  id_text = codes "61";
  uuid = codes "u";
  year = codes "2026";
  month = codes "7";
}

abbrev empty : Staging
empty = record { manifests = []; files = []; audit_events = [] }

abbrev begun : Staging
begun = (init bucket film stamp (principal 101 11) (request 10) empty).1

abbrev filled : Staging
filled = (chunk bucket 61 (some 0) (some (1 ∷ 2 ∷ 3 ∷ [])) (principal 101 11) (request 20) begun).1

UploadReach-AreValid_example : AreValid filled
UploadReach-AreValid_example =
    UploadReach-AreValid bucket empty filled
      (UploadReach.more
        (UploadReach.more (UploadReach.start empty)
          (UploadStep.init_step film stamp (principal 101 11) (request 10) empty))
        (UploadStep.chunk_step 61 (some 0) (some (1 ∷ 2 ∷ 3 ∷ [])) (principal 101 11) (request 20)
          begun))
      tt

abbrev stored : UploadManifest
stored = record {
  dto = film;
  upload_id = 61;
  actor_id = 101;
  created_at = 10;
  chunks = 0 ∷ [];
  r2 = some (record {
    key = codes "apk/2026/07/u.mp4";
    provider_upload_id = 7;
    parts = record { chunk_index = 0; part_number = 1; e_tag = 3; size = 3 } ∷ [];
    uploaded_bytes = 3;
  });
}

-- The upload of a film in one chunk, ready to be completed.
abbrev ready : Staging
ready = record { manifests = (61, 1_000, stored) ∷ []; files = []; audit_events = [] }

abbrev answered : Completed
answered = record {
  file_size = 3;
  encrypted_locator = none;
  storage_key = some (codes "apk/2026/07/u.mp4");
}

complete-eq-ok_example :
    (m : UploadManifest) × (load_manifest 61 30 ready ≡ some m)
    × (m.actor_id ≡ 101)
    × (m.chunks ≡ range 0 m.dto.total_chunks)
    × (answered.file_size ≡ m.dto.size_bytes)
    × IsWhole bucket m m.r2
unfolding opened
complete-eq-ok_example =
    complete-eq-ok bucket 61 stamp (principal 101 11) (request 30) ready
      (complete bucket 61 stamp (principal 101 11) (request 30) ready).1 answered
      (
        record {
          increasing = refl;
          below = refl;
          r2 = record { same = λ i. ground arith; distinct = refl; numbered = refl; bytes = refl };
        },
        tt,
      )
      refl

read_chunks-stage_example :
    read_chunks bucket 61 0 2 (stage 61 0 ((1 ∷ 2 ∷ []) ∷ (3 ∷ []) ∷ []) empty)
    ≡ (ok (1 ∷ 2 ∷ 3 ∷ []), stage 61 0 ((1 ∷ 2 ∷ []) ∷ (3 ∷ []) ∷ []) empty)
read_chunks-stage_example = read_chunks-stage bucket 61 0 ((1 ∷ 2 ∷ []) ∷ (3 ∷ []) ∷ []) empty

foreign_upload_example :
    (chunk bucket 61 (some 0) none (principal 102 12) (request 20) ready
      ≡ (err (not_found "Upload session not found"), ready))
    × (complete bucket 61 stamp (principal 102 12) (request 20) ready
        ≡ (err (not_found "Upload session not found"), ready))
    × (cancel 61 (principal 102 12) (request 20) ready
        ≡ (err (not_found "Upload session not found"), ready))
unfolding opened
foreign_upload_example =
    foreign_upload bucket 61 (principal 102 12) (request 20) ready (some 0) none stamp refl
