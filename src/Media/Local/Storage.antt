-- ===== src/Media/Local/Storage.antt =====
-- The storage's keys, and what a completion stores.
use ascended_core.Base.{
  String, str_append, ◌≡◌, refl, sym, ap, ◌∙◌, true, false, none, some, List, [], ◌∷◌, includes,
  arith, str_eq, eq_refl, eq_iff, Bool-cases, inl, inr,
}
use ascended_core.Base.Dict
use ascended_core.Base.Dict.{Dict, get-set, get-delete}
use ascended_core.Media.Local.{
  LocalMediaService, UploadRecord, put, get_url, drop_key, ready_asset, UploadedBus,
  complete_upload,
}

pub get-set_self :
    {V : Type 0} (k : String) (v : V) (m : Dict V) → Dict.get k (Dict.set k v m) ≡ some v
get-set_self k v m = get-set k k v m ∙ (rw (eq_refl k) refl)

-- deleting a key that was absent before it was set
pub get-delete-set :
    {V : Type 0} (k j : String) (v : V) (m : Dict V)
    → Dict.get k m ≡ none
    → Dict.get j (Dict.delete k (Dict.set k v m)) ≡ Dict.get j m
get-delete-set k j v m absent = get-delete k j (Dict.set k v m) ∙ (elim (Bool-cases (str_eq k j)) [
  | inl same ↦ rw same (sym (ap (λ i. Dict.get i m) (sym ((eq_iff k j).0 same)) ∙ absent))
  | inr differ ↦ rw differ (get-set k j v m ∙ (rw differ refl))
])

pub get-delete_self : {V : Type 0} (k : String) (m : Dict V) → Dict.get k (Dict.delete k m) ≡ none
get-delete_self k m = get-delete k k m ∙ (rw (eq_refl k) refl)

pub includes-put : (key : String) (keys : List String) → includes key (put key keys) ≡ true
unfolding put
includes-put key keys = ground (arith, eq_refl key)

pub get_url-put :
    (key : String) (keys : List String)
    → get_url key (put key keys) ≡ some (str_append "memory://" key)
unfolding get_url
get_url-put key keys = rw (includes-put key keys, get_url) refl

pub includes-drop_key :
    (key : String) (keys : List String) → includes key (drop_key key keys) ≡ false
unfolding drop_key
includes-drop_key key [] = refl
includes-drop_key key (k ∷ keys) = ground (arith, includes-drop_key key keys)

drop_key_absent :
    (key : String) (keys : List String) → includes key keys ≡ false → drop_key key keys ≡ keys
unfolding drop_key
drop_key_absent key [] h = refl
drop_key_absent key (k ∷ keys) h = ground (arith, h, drop_key_absent key keys)

pub drop_key-put :
    (key : String) (keys : List String)
    → includes key keys ≡ false
    → drop_key key (put key keys) ≡ keys
unfolding put drop_key
drop_key-put key keys h = rw (h, put) (rw (eq_refl key, drop_key) (drop_key_absent key keys h))

-- a completion that finds its upload stores the asset as ready, with the URL of its object if the
-- storage has it, and forgets the upload
pub completed :
    {W : Type 0} (publish : UploadedBus W) (upload_id : String) (s : LocalMediaService) (w : W)
    (r : UploadRecord)
    → Dict.get upload_id s.uploads ≡ some r
    → (complete_upload publish upload_id s w).1 ≡ record s {
      assets =
          Dict.set
            (ready_asset r.asset (get_url r.asset.storage_key s.storage)).id
            (ready_asset r.asset (get_url r.asset.storage_key s.storage))
            s.assets;
      uploads = Dict.delete upload_id s.uploads;
    }
unfolding complete_upload
completed publish upload_id s w r h = rw (h, complete_upload) refl
