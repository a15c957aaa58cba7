-- ===== src/Media/Local/Uploads.antt =====
-- What becomes of an upload and of its asset.
use ascended_core.Base.{
  ℕ, ◌<◌, ◌≤◌, String, str_append, ◌≡◌, ◌↔◌, ◌⊎◌, refl, ap, ◌∙◌, true, false, none, some, includes,
  arith,
}
use ascended_core.Base.Dict
use ascended_core.Base.Dict.{Dict, get-set, get-delete}
use ascended_core.Core.Result.{ok, is_ok}
use ascended_core.Media.Assets.{MediaAsset, ready, BeginUploadInput, UploadPolicy}
use ascended_core.Media.Local.{
  LocalMediaService, put, drop_key, upload_error, new_session, new_asset, begin_upload, ready_asset,
  UploadedBus, complete_upload, abort_upload, get_asset,
}
use ascended_core.Media.Local.Storage.{
  get-set_self, get-delete-set, get-delete_self, includes-put, get_url-put, drop_key-put, completed,
}

module _ (policy : UploadPolicy) (ttl : ℕ) (decimal : ℕ → String) (input : BeginUploadInput)
    (upload_id asset_id : String) (now : ℕ) (s : LocalMediaService) where
  -- the service behind the upload, and its new asset
  abbrev pub begun : LocalMediaService
  begun = (begin_upload policy ttl decimal input upload_id asset_id now s).1

  abbrev pub asset : MediaAsset
  asset = new_asset policy ttl decimal input upload_id asset_id now

  abbrev begun_state : LocalMediaService
  begun_state = record {
    uploads =
        Dict.set upload_id
          (record { session = new_session policy ttl decimal upload_id now; asset = asset })
          s.uploads;
    assets = Dict.set asset_id asset s.assets;
    storage = put asset.storage_key s.storage;
  }

  accepted :
      upload_error policy ttl decimal input ≡ none
      → begin_upload policy ttl decimal input upload_id asset_id now s
        ≡ (ok (new_session policy ttl decimal upload_id now), begun_state)
  unfolding begin_upload
  accepted h = rw (h, begin_upload) refl

  -- An upload is accepted exactly when its size is positive and within the policy's limit and the
  -- policy allows its content type; an upload that is refused leaves the service as it was.
  pub begin_upload_lem :
      ((is_ok (begin_upload policy ttl decimal input upload_id asset_id now s).0 ≡ true) ↔ (
        (0 < input.size_bytes)
        × (input.size_bytes ≤ policy.max_size_bytes)
        × (includes input.content_type policy.allowed_content_types ≡ true)))
      × ((is_ok (begin_upload policy ttl decimal input upload_id asset_id now s).0 ≡ true)
          ⊎ (begun ≡ s))
  unfolding begin_upload upload_error is_ok
  begin_upload_lem = ground arith

  begun_is : upload_error policy ttl decimal input ≡ none → begun ≡ begun_state
  begun_is h = ap (λ r. r.1) (accepted h)

  -- the record that a completion finds
  found :
      upload_error policy ttl decimal input ≡ none
      → Dict.get upload_id begun.uploads
        ≡ some (record { session = new_session policy ttl decimal upload_id now; asset = asset })
  found h =
      ap (λ (b : LocalMediaService). Dict.get upload_id b.uploads) (begun_is h)
      ∙ get-set_self upload_id _ s.uploads

  abbrev completed_state : LocalMediaService
  completed_state = record {
    assets =
        Dict.set asset_id
          (record asset {
            state = ready;
            public_url = some (str_append "memory://" asset.storage_key);
          })
          begun_state.assets;
    uploads = Dict.delete upload_id begun_state.uploads;
    storage = begun_state.storage;
  }

  completed_begun :
      {W : Type 0} (publish : UploadedBus W) (w : W)
      → upload_error policy ttl decimal input ≡ none
      → (complete_upload publish upload_id begun w).1 ≡ completed_state
  unfolding ready_asset new_asset
  completed_begun publish w h =
      ap (λ b. (complete_upload publish upload_id b w).1) (begun_is h)
      ∙ completed publish upload_id begun_state w
          (record { session = new_session policy ttl decimal upload_id now; asset = asset })
          (get-set_self upload_id _ s.uploads)
      ∙ (rw (get_url-put asset.storage_key s.storage) refl)

  -- Completing an upload that was accepted makes its asset ready, under the URL of its object, and
  -- forgets the upload: a second completion finds none.
  pub complete-begin :
      {W : Type 0} (publish : UploadedBus W) (w : W)
      → upload_error policy ttl decimal input ≡ none
      → let after = (complete_upload publish upload_id begun w).1 in
        (get_asset asset_id after
          ≡ some (record asset {
            state = ready;
            public_url = some (str_append "memory://" asset.storage_key);
          }))
        × (Dict.get upload_id after.uploads ≡ none)
        × (includes asset.storage_key after.storage ≡ true)
  unfolding get_asset
  complete-begin publish w h = (
    ap (λ (b : LocalMediaService). Dict.get asset_id b.assets) (completed_begun publish w h)
        ∙ get-set_self asset_id _ begun_state.assets,
    ap (λ (b : LocalMediaService). Dict.get upload_id b.uploads) (completed_begun publish w h)
        ∙ get-delete_self upload_id begun_state.uploads,
    ap (λ (b : LocalMediaService). includes asset.storage_key b.storage)
          (completed_begun publish w h)
        ∙ includes-put asset.storage_key s.storage,
  )

  aborted :
      upload_error policy ttl decimal input ≡ none
      → abort_upload upload_id begun ≡ record {
        uploads = Dict.delete upload_id begun_state.uploads;
        assets = Dict.delete asset_id begun_state.assets;
        storage = drop_key asset.storage_key begun_state.storage;
      }
  unfolding abort_upload new_asset
  aborted h =
      ap (abort_upload upload_id) (begun_is h)
      ∙ (rw
          (
            get-set_self upload_id
                (record { session = new_session policy ttl decimal upload_id now; asset = asset })
                s.uploads,
            abort_upload,
          )
          refl)

  -- Aborting an accepted upload undoes it: if its ids and its storage key were unused, every upload
  -- and every asset is found as before, and the storage holds the keys of before.
  pub abort-begin :
      (other : String)
      → upload_error policy ttl decimal input ≡ none
      → Dict.get upload_id s.uploads ≡ none
      → get_asset asset_id s ≡ none
      → includes asset.storage_key s.storage ≡ false
      → (Dict.get other (abort_upload upload_id begun).uploads ≡ Dict.get other s.uploads)
        × (get_asset other (abort_upload upload_id begun) ≡ get_asset other s)
        × ((abort_upload upload_id begun).storage ≡ s.storage)
  unfolding get_asset
  abort-begin other h no_upload no_asset no_key = (
    ap (λ (b : LocalMediaService). Dict.get other b.uploads) (aborted h)
        ∙ get-delete-set upload_id other _ s.uploads no_upload,
    ap (λ (b : LocalMediaService). Dict.get other b.assets) (aborted h)
        ∙ get-delete-set asset_id other _ s.assets no_asset,
    ap (λ (b : LocalMediaService). b.storage) (aborted h)
        ∙ drop_key-put asset.storage_key s.storage no_key,
  )
