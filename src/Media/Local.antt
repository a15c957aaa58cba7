-- ===== src/Media/Local.antt =====
-- packages/media/src/local.ts, with its in-memory object storage. The ids that `createId` makes, the
-- clock's milliseconds and the decimal text of a number are arguments; the bus is a call on a world
-- that gets the payload of `media.asset_uploaded`.
pub mod Deletion
pub mod Storage
pub mod Uploads
use ascended_core.Base.{
  ℕ, ◌+◌, ◌*◌, String, str_append, slice, Bool, true, false, not, Option, none, some, List, [], ◌∷◌,
  filter, includes, ltb, leb, str_eq, if◌then◌else◌,
}
use ascended_core.Base.Dict
use ascended_core.Base.Dict.{Dict}
use ascended_core.Core.Value.{Fields, string, number, end, field}
use ascended_core.Core.Errors.{CoreError, core_error, validation, not_found, Thrown, core}
use ascended_core.Core.Result.{Result, ok, err}
use ascended_core.Media.Assets.{
  MediaKind, image, video, audio, document, MediaAsset, MediaAssetState, pending, ready, deleted,
  UploadSession, direct, BeginUploadInput, UploadPolicy,
}

-- `InMemoryObjectStorage`: the set of its keys
abbrev pub ObjectStorage : Type 0
ObjectStorage = List String

pub put : String → ObjectStorage → ObjectStorage
put key keys = if includes key keys then keys else key ∷ keys

pub get_url : String → ObjectStorage → Option String
get_url key keys = if includes key keys then some (str_append "memory://" key) else none

pub drop_key : String → ObjectStorage → ObjectStorage
drop_key key = filter (λ k. not (str_eq k key))

pub record UploadRecord : Type 0 where
  pub session : UploadSession
  pub asset : MediaAsset

pub record LocalMediaService : Type 0 where
  pub uploads : Dict UploadRecord
  pub assets : Dict MediaAsset
  pub storage : ObjectStorage

abbrev default_upload_ttl_seconds : ℕ
default_upload_ttl_seconds = 900

-- `contentType.startsWith(…)`
infer_kind : String → MediaKind
infer_kind content_type =
    if str_eq (slice content_type 0 6) "image/"
    then image
    else if str_eq (slice content_type 0 6) "video/"
    then video
    else if str_eq (slice content_type 0 6) "audio/"
    then audio
    else document

module _ (policy : UploadPolicy) (ttl_seconds : ℕ) (decimal : ℕ → String) where
  refused : String → Fields → CoreError
  refused message context = record (core_error validation message) { context = some context }

  -- the three guards, and the error of the first that fails
  unfoldable pub upload_error : BeginUploadInput → Option CoreError
  unfolding refused
  upload_error input =
      if leb input.size_bytes 0
      then some (
          refused "sizeBytes must be a positive integer."
            (field "sizeBytes" (number input.size_bytes) end))
      else if ltb policy.max_size_bytes input.size_bytes
      then some (
          refused
            (str_append "Upload exceeds max size of "
              (str_append (decimal policy.max_size_bytes) " bytes."))
            (field "sizeBytes" (number input.size_bytes)
              (field "maxSizeBytes" (number policy.max_size_bytes) end)))
      else if includes input.content_type policy.allowed_content_types
      then none
      else some (
          refused (str_append "Content type " (str_append input.content_type " is not allowed."))
            (field "contentType" (string input.content_type) end))

  pub new_session : String → ℕ → UploadSession
  new_session upload_id now = record {
    upload_id = upload_id;
    method = direct;
    expires_at = now + ttl_seconds * 1000;
    constraints = record {
      max_size_bytes = policy.max_size_bytes;
      allowed_content_types = policy.allowed_content_types;
    };
  }

  pub new_asset : BeginUploadInput → String → String → ℕ → MediaAsset
  unfolding infer_kind
  new_asset input upload_id asset_id now = record {
    id = asset_id;
    owner_id = input.owner_id;
    kind = infer_kind input.content_type;
    content_type = input.content_type;
    size_bytes = input.size_bytes;
    storage_key = str_append input.owner_id (str_append "/" upload_id);
    public_url = none;
    state = pending;
    alt_text = none;
    created_at = now;
    metadata = none;
  }

  pub begin_upload :
      BeginUploadInput
      → String
      → String
      → ℕ
      → LocalMediaService
      → Result UploadSession CoreError × LocalMediaService
  unfolding upload_error new_session new_asset
  begin_upload input upload_id asset_id now s = elim (upload_error input) [
    | some e ↦ (err e, s)
    | none ↦
        let session = new_session upload_id now in
        let asset = new_asset input upload_id asset_id now in
        (
          ok session,
          record {
            uploads = Dict.set upload_id (record { session = session; asset = asset }) s.uploads;
            assets = Dict.set asset_id asset s.assets;
            storage = put asset.storage_key s.storage;
          },
        )
  ]

-- the asset of a completed upload: `...(publicUrl ? { publicUrl } : {})`
pub ready_asset : MediaAsset → Option String → MediaAsset
ready_asset asset none = record asset { state = ready }
ready_asset asset (some url) = record asset { state = ready; public_url = some url }

-- the bus gets the ids of the asset and its owner, and the kind
abbrev pub UploadedBus : Type 0 → Type 0
UploadedBus W = String → String → MediaKind → W → Result (Unit {0}) Thrown × W

pub complete_upload :
    {W : Type 0}
    → UploadedBus W
    → String
    → LocalMediaService
    → W
    → Result (Unit {0}) Thrown × LocalMediaService × W
unfolding ready_asset
complete_upload publish upload_id s w = elim (Dict.get upload_id s.uploads) [
  | none ↦ (
    err (core (core_error not_found (str_append "Upload " (str_append upload_id " not found.")))),
    s,
    w,
  )
  | some r ↦
      let done = ready_asset r.asset (get_url r.asset.storage_key s.storage) in
      let (result, w') = publish done.id done.owner_id done.kind w in
      (
        result,
        record s {
          assets = Dict.set done.id done s.assets;
          uploads = Dict.delete upload_id s.uploads;
        },
        w',
      )
]

pub abort_upload : String → LocalMediaService → LocalMediaService
abort_upload upload_id s = elim (Dict.get upload_id s.uploads) [
  | none ↦ s
  | some r ↦ record {
    uploads = Dict.delete upload_id s.uploads;
    assets = Dict.delete r.asset.id s.assets;
    storage = drop_key r.asset.storage_key s.storage;
  }
]

unfoldable pub get_asset : String → LocalMediaService → Option MediaAsset
get_asset asset_id s = Dict.get asset_id s.assets

pub delete_asset : String → LocalMediaService → LocalMediaService
delete_asset asset_id s = elim (Dict.get asset_id s.assets) [
  | none ↦ s
  | some asset ↦ record s {
    storage = drop_key asset.storage_key s.storage;
    assets = Dict.set asset_id (record asset { state = deleted }) s.assets;
  }
]
