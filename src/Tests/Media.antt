-- ===== src/Tests/Media.antt =====
-- The media service at concrete inputs.
use ascended_core.Base.{
  ℕ, String, str_append, ◌≡◌, refl, true, false, none, some, [], ◌∷◌, includes,
}
use ascended_core.Base.Dict
use ascended_core.Core.Result.{ok}
use ascended_core.Media.Assets.{
  MediaAsset, image, pending, ready, deleted, direct, BeginUploadInput, UploadPolicy,
}
use ascended_core.Media.Local.{
  LocalMediaService, UploadRecord, UploadedBus, upload_error, complete_upload, get_url, get_asset,
  delete_asset,
}
use ascended_core.Media.Local.Uploads.{begun, asset, complete-begin}
use ascended_core.Media.Local.Deletion.{complete-delete}

abbrev policy : UploadPolicy
policy = record { max_size_bytes = 100; allowed_content_types = "image/png" ∷ [] }

abbrev input : BeginUploadInput
input = record {
  owner_id = "usr_ann";
  filename = "a.png";
  content_type = "image/png";
  size_bytes = 10;
}

abbrev empty_service : LocalMediaService
empty_service = record { uploads = []; assets = []; storage = [] }

abbrev decimal : ℕ → String
decimal n = "100"

abbrev bus : UploadedBus ℕ
bus asset_id owner_id kind w = (ok tt, w)

input_accepted : upload_error policy 900 decimal input ≡ none
unfolding upload_error
input_accepted = refl

abbrev service : LocalMediaService
service = begun policy 900 decimal input "upload_1" "asset_1" 5 empty_service

abbrev new : MediaAsset
new = asset policy 900 decimal input "upload_1" "asset_1" 5 empty_service

complete-begin_example :
    (get_asset "asset_1" (complete_upload bus "upload_1" service 0).1
      ≡ some (record new {
        state = ready;
        public_url = some (str_append "memory://" new.storage_key);
      }))
    × (Dict.get "upload_1" (complete_upload bus "upload_1" service 0).1.uploads ≡ none)
    × (includes new.storage_key (complete_upload bus "upload_1" service 0).1.storage ≡ true)
complete-begin_example =
    complete-begin policy 900 decimal input "upload_1" "asset_1" 5 empty_service bus 0
      input_accepted

no_asset : get_asset "asset_1" empty_service ≡ none
unfolding get_asset Dict.get
no_asset = refl

no_upload : Dict.get "upload_1" empty_service.uploads ≡ none
unfolding Dict.get
no_upload = refl

abbrev open_asset : MediaAsset
open_asset = record {
  id = "asset_1";
  owner_id = "usr_ann";
  kind = image;
  content_type = "image/png";
  size_bytes = 10;
  storage_key = "usr_ann/upload_1";
  public_url = none;
  state = pending;
  alt_text = none;
  created_at = 5;
  metadata = none;
}

abbrev open_upload : UploadRecord
open_upload = record {
  session = record {
    upload_id = "upload_1";
    method = direct;
    expires_at = 900005;
    constraints = record { max_size_bytes = 100; allowed_content_types = "image/png" ∷ [] };
  };
  asset = open_asset;
}

abbrev open_service : LocalMediaService
open_service = record {
  uploads = ("upload_1", open_upload) ∷ [];
  assets = ("asset_1", open_asset) ∷ [];
  storage = "usr_ann/upload_1" ∷ [];
}

open_upload_found : Dict.get "upload_1" open_service.uploads ≡ some open_upload
unfolding Dict.get
open_upload_found = refl

open_asset_found : get_asset "asset_1" open_service ≡ some open_asset
unfolding get_asset Dict.get
open_asset_found = refl

complete-delete_example :
    (get_asset "asset_1" (delete_asset "asset_1" open_service)
      ≡ some (record open_asset { state = deleted }))
    × (includes "usr_ann/upload_1"
          (complete_upload bus "upload_1" (delete_asset "asset_1" open_service) 0).1.storage
        ≡ false)
    × (get_url "usr_ann/upload_1"
          (complete_upload bus "upload_1" (delete_asset "asset_1" open_service) 0).1.storage
        ≡ none)
    × (get_asset "asset_1"
          (complete_upload bus "upload_1" (delete_asset "asset_1" open_service) 0).1
        ≡ some (record open_asset { state = ready }))
complete-delete_example =
    complete-delete bus "upload_1" open_service 0 open_upload open_upload_found open_asset_found
