-- ===== src/Media/Local/Deletion.antt =====
-- An asset that is deleted while its upload is open.
use ascended_core.Base.{String, ◌≡◌, refl, ◌∙◌, false, none, some, List, includes}
use ascended_core.Base.Dict
use ascended_core.Base.Dict.{Dict, get-set, get-delete}
use ascended_core.Media.Assets.{MediaAsset, ready, deleted}
use ascended_core.Media.Local.{
  LocalMediaService, UploadRecord, get_url, drop_key, ready_asset, UploadedBus, complete_upload,
  get_asset, delete_asset,
}
use ascended_core.Media.Local.Storage.{get-set_self, includes-drop_key, completed}

-- the service behind the deletion of an asset
abbrev without_asset : MediaAsset → LocalMediaService → LocalMediaService
without_asset a s = record s {
  storage = drop_key a.storage_key s.storage;
  assets = Dict.set a.id (record a { state = deleted }) s.assets;
}

delete_asset_lem :
    (a : MediaAsset) (s : LocalMediaService)
    → Dict.get a.id s.assets ≡ some a
    → delete_asset a.id s ≡ without_asset a s
unfolding delete_asset
delete_asset_lem a s h = rw (h, delete_asset) refl

get_url-drop_key : (key : String) (keys : List String) → get_url key (drop_key key keys) ≡ none
unfolding get_url
get_url-drop_key key keys = rw (includes-drop_key key keys, get_url) refl

-- a completion behind a deletion
completed_deleted :
    {W : Type 0} (publish : UploadedBus W) (upload_id : String) (s : LocalMediaService) (w : W)
    (r : UploadRecord)
    → Dict.get upload_id s.uploads ≡ some r
    → (complete_upload publish upload_id (without_asset r.asset s) w).1 ≡ record s {
      assets =
          Dict.set r.asset.id (record r.asset { state = ready }) (without_asset r.asset s).assets;
      uploads = Dict.delete upload_id s.uploads;
      storage = drop_key r.asset.storage_key s.storage;
    }
unfolding ready_asset
completed_deleted publish upload_id s w r h =
    completed publish upload_id (without_asset r.asset s) w r h
    ∙ (rw (get_url-drop_key r.asset.storage_key s.storage) refl)

-- An asset that was deleted while its upload was open comes back when the upload is completed: it is
-- ready, and but for that what the upload had recorded, so that no URL is added to it, although the
-- storage holds no object for it and gives no URL.
pub complete-delete :
    {W : Type 0} (publish : UploadedBus W) (upload_id : String) (s : LocalMediaService) (w : W)
    (r : UploadRecord)
    → Dict.get upload_id s.uploads ≡ some r
    → get_asset r.asset.id s ≡ some r.asset
    → let deleted_then = delete_asset r.asset.id s in
      let after = (complete_upload publish upload_id deleted_then w).1 in
      (get_asset r.asset.id deleted_then ≡ some (record r.asset { state = deleted }))
      × (includes r.asset.storage_key after.storage ≡ false)
      × (get_url r.asset.storage_key after.storage ≡ none)
      × (get_asset r.asset.id after ≡ some (record r.asset { state = ready }))
unfolding get_asset
complete-delete publish upload_id s w r opened stored = rw (delete_asset_lem r.asset s stored) (
  get-set_self r.asset.id (record r.asset { state = deleted }) s.assets,
  rw (completed_deleted publish upload_id s w r opened)
      (includes-drop_key r.asset.storage_key s.storage),
  rw (completed_deleted publish upload_id s w r opened)
      (get_url-drop_key r.asset.storage_key s.storage),
  rw (completed_deleted publish upload_id s w r opened)
      (get-set_self r.asset.id (record r.asset { state = ready }) (without_asset r.asset s).assets),
)
