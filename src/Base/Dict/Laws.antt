-- ===== src/Base/Dict/Laws.antt =====
-- What a dictionary keeps when its keys are set and deleted.
use ascended_core.Base.{
  String, ◌≡◌, refl, ◌∙◌, false, none, some, [], ◌∷◌, arith, str_eq, str_eq_comm, eq_refl,
  Bool-cases, inl, inr,
}
use ascended_core.Base.Dict
use ascended_core.Base.Dict.{Dict, get-set, get-delete}

module _ {V : Type 0} where
  pub get-set_same : (k : String) (v : V) (m : Dict V) → Dict.get k (Dict.set k v m) ≡ some v
  get-set_same k v m = get-set k k v m ∙ (rw (eq_refl k) refl)

  pub get-set_other :
      (k j : String) (v : V) (m : Dict V)
      → str_eq k j ≡ false
      → Dict.get j (Dict.set k v m) ≡ Dict.get j m
  get-set_other k j v m h = get-set k j v m ∙ (rw h refl)

  pub get-delete_same : (k : String) (m : Dict V) → Dict.get k (Dict.delete k m) ≡ none
  get-delete_same k m = get-delete k k m ∙ (rw (eq_refl k) refl)

  pub get-delete_other :
      (k j : String) (m : Dict V) → str_eq k j ≡ false → Dict.get j (Dict.delete k m) ≡ Dict.get j m
  get-delete_other k j m h = get-delete k j m ∙ (rw h refl)

  -- setting a key to what it holds
  pub set-get : (k : String) (v : V) (m : Dict V) → Dict.get k m ≡ some v → Dict.set k v m ≡ m
  unfolding Dict.get Dict.set
  set-get k v [] h = ground (arith, h)
  set-get k v ((j, w) ∷ m) h = ground (arith, h, set-get k v m)

  pub set-set : (k : String) (v w : V) (m : Dict V) → Dict.set k v (Dict.set k w m) ≡ Dict.set k v m
  unfolding Dict.set
  set-set k v w [] = rw (eq_refl k) refl
  set-set k v w ((j, u) ∷ m) = ground (arith, set-set k v w m)

  pub delete-set :
      (k : String) (v : V) (m : Dict V) → Dict.get k m ≡ none → Dict.delete k (Dict.set k v m) ≡ m
  unfolding Dict.get Dict.set Dict.delete
  delete-set k v [] h = rw (eq_refl k) refl
  delete-set k v ((j, w) ∷ m) h = ground (arith, h, delete-set k v m)

  pub delete_absent : (k : String) (m : Dict V) → Dict.get k m ≡ none → Dict.delete k m ≡ m
  unfolding Dict.get Dict.delete
  delete_absent k [] h = refl
  delete_absent k ((j, w) ∷ m) h = ground (arith, h, delete_absent k m)

  -- no key has two entries
  unfoldable pub IsMap : Dict V → Type 0
  IsMap [] = Unit
  IsMap ((k, v) ∷ m) = (Dict.get k m ≡ none) × IsMap m

  pub set-IsMap : (k : String) (v : V) (m : Dict V) → IsMap m → IsMap (Dict.set k v m)
  unfolding IsMap Dict.set Dict.get
  set-IsMap k v [] h = (refl, tt)
  set-IsMap k v ((j, w) ∷ m) h = elim (Bool-cases (str_eq j k)) [
    | inl same ↦ rw same h
    | inr differ ↦
        rw differ (get-set_other k j v m (str_eq_comm k j ∙ differ) ∙ h.0, set-IsMap k v m h.1)
  ]
