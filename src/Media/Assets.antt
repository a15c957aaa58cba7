-- ===== src/Media/Assets.antt =====
-- packages/media/src/assets.ts and uploads.ts. Sizes are naturals, and times milliseconds.
use ascended_core.Base.{ℕ, String, Option, List}
use ascended_core.Core.Value.{Metadata}

pub data MediaKind : Type 0 where
  image video audio document : MediaKind

pub data MediaAssetState : Type 0 where
  pending ready failed deleted : MediaAssetState

pub record MediaAsset : Type 0 where
  pub id : String
  pub owner_id : String
  pub kind : MediaKind
  pub content_type : String
  pub size_bytes : ℕ
  pub storage_key : String
  pub public_url : Option String
  pub state : MediaAssetState
  pub alt_text : Option String
  pub created_at : ℕ
  pub metadata : Option Metadata

pub data UploadMethod : Type 0 where
  direct proxy : UploadMethod

pub record UploadConstraints : Type 0 where
  pub max_size_bytes : ℕ
  pub allowed_content_types : List String

pub record UploadSession : Type 0 where
  pub upload_id : String
  pub method : UploadMethod
  pub expires_at : ℕ
  pub constraints : UploadConstraints

pub record BeginUploadInput : Type 0 where
  pub owner_id : String
  pub filename : String
  pub content_type : String
  pub size_bytes : ℕ

pub record UploadPolicy : Type 0 where
  pub max_size_bytes : ℕ
  pub allowed_content_types : List String
