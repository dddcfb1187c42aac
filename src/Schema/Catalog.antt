-- ===== src/Schema/Catalog.antt =====
-- Dramas, seasons, episodes and media assets (models of prisma/schema.prisma).
use backendurdubolonest.Base.{ℕ, Bool, true, false, Option, Text}

pub data ContentVisibility : Type 0 where
  public private : ContentVisibility

pub data MediaStatus : Type 0 where
  processing active inactive error : MediaStatus

pub data MediaType : Type 0 where
  mp4 hls dash other : MediaType

pub data DownloadAccess : Type 0 where
  gallery app_storage both never : DownloadAccess

pub data EpisodeStatus : Type 0 where
  draft published archived : EpisodeStatus

pub record Drama : Type 0 where
  pub id : ℕ
  pub name : Text
  pub slug : Text
  pub drama_number : Option ℕ
  pub total_seasons : ℕ
  pub description : Option Text
  pub thumbnail_key : Option ℕ
  pub is_published : Bool
  pub deleted_at : Option ℕ

pub record Season : Type 0 where
  pub id : ℕ
  pub drama_id : ℕ
  pub season_number : ℕ
  pub title : Option Text
  pub total_episodes : ℕ
  pub thumbnail_key : Option ℕ
  pub deleted_at : Option ℕ

pub record Episode : Type 0 where
  pub id : ℕ
  pub season_id : ℕ
  pub episode_number : ℕ
  pub title : Option Text
  pub is_published : Bool
  pub status : EpisodeStatus
  pub visibility : ContentVisibility
  pub is_premium : Bool
  pub description : Option Text
  pub thumbnail_key : Option ℕ
  pub download_access : DownloadAccess
  pub deleted_at : Option ℕ

pub record MediaAsset : Type 0 where
  pub id : ℕ
  pub episode_id : ℕ
  pub kind : MediaType
  pub media_type : MediaType
  pub provider : Text
  pub encrypted_locator : ℕ
  pub checksum : Option Text
  pub status : MediaStatus
  pub metadata : Option ℕ
  pub duration_seconds : Option ℕ
  pub size_bytes : Option ℕ
  pub version : ℕ
  pub rotated_at : Option ℕ
  pub deleted_at : Option ℕ

abbrev pub is_published_status : EpisodeStatus → Bool
is_published_status draft = false
is_published_status published = true
is_published_status archived = false

abbrev pub is_public : ContentVisibility → Bool
is_public public = true
is_public private = false

abbrev pub is_media_active : MediaStatus → Bool
is_media_active processing = false
is_media_active active = true
is_media_active inactive = false
is_media_active error = false
