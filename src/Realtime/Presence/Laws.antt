-- ===== src/Realtime/Presence/Laws.antt =====
-- What a presence tracker shows, and what a sweep takes away.
use ascended_core.Base.{
  ℕ, ◌+◌, ◌*◌, ◌≤◌, String, ◌≡◌, refl, ap, subst, ◌∙◌, inl, inr, true, Option, none, some, List, [],
  ◌∷◌, leb, arith, str_eq, eq_iff, Bool-cases, if◌then◌else◌,
}
use ascended_core.Base.Dict
use ascended_core.Base.Dict.{Dict}
use ascended_core.Base.Dict.Laws.{IsMap, get-set_same}
use ascended_core.Core.Value.{Metadata}
use ascended_core.Realtime.{Services}
use ascended_core.Realtime.Presence.{
  PresenceStatus, live, PresenceEntry, Entries, is_expired, sweep, get_presence, set_presence,
  sweep_expired, announce_swept,
}

get-sweep_absent :
    (now : ℕ) (j : String) (m : Entries) → Dict.get j m ≡ none → Dict.get j (sweep now m).1 ≡ none
unfolding sweep Dict.get
get-sweep_absent now j [] h = refl
get-sweep_absent now j ((k, e) ∷ m) h = ground (arith, h, get-sweep_absent now j m)

get-sweep :
    (now : ℕ) (j : String) (m : Entries)
    → IsMap m
    → Dict.get j (sweep now m).1 ≡ live now (Dict.get j m)
unfolding sweep Dict.get IsMap
get-sweep now j [] h = refl
get-sweep now j ((k, e) ∷ m) h = elim (Bool-cases (str_eq k j)) [
  | inl same ↦ elim (Bool-cases (is_expired now e)) [
    | inl gone ↦
        rw (same, gone)
          (subst (λ i. Dict.get i (sweep now m).1 ≡ none) ((eq_iff k j).0 same)
            (get-sweep_absent now k m h.0))
    | inr stays ↦ rw (same, stays) (rw same refl)
  ]
  | inr differ ↦ elim (Bool-cases (is_expired now e)) [
    | inl gone ↦ rw (differ, gone) (get-sweep now j m h.1)
    | inr stays ↦ rw (differ, stays) (rw differ (get-sweep now j m h.1))
  ]
]

announced_entries :
    {W : Type 0} (services : Services W) (clock : W → ℕ) (swept : List String) (left : Entries)
    (w : W)
    → (announce_swept services clock swept left w).1 ≡ left
unfolding announce_swept
announced_entries services clock [] left w = refl
announced_entries services clock (account ∷ swept) left w = refl

swept_entries :
    {W : Type 0} (services : Services W) (clock : W → ℕ) (entries : Entries) (w : W)
    → (sweep_expired services clock entries w).1 ≡ (sweep (clock w) entries).1
unfolding sweep_expired
swept_entries services clock entries w =
    let (swept, left) = sweep (clock w) entries in announced_entries services clock swept left w

-- What a sweep leaves stored under an account is what the tracker showed of it before the sweep:
-- it takes the expired entries away, and no others.
pub get-sweep_expired :
    {W : Type 0} (services : Services W) (clock : W → ℕ) (account : String) (entries : Entries)
    (w : W)
    → IsMap entries
    → Dict.get account (sweep_expired services clock entries w).1
      ≡ get_presence clock account entries w
unfolding get_presence
get-sweep_expired services clock account entries w h =
    ap (Dict.get account) (swept_entries services clock entries w)
    ∙ get-sweep (clock w) account entries h

is_expired_mono :
    (before now : ℕ) (e : PresenceEntry)
    → before ≤ now
    → is_expired before e ≡ true
    → is_expired now e ≡ true
unfolding is_expired
is_expired_mono before now e h gone = ground (arith, h, gone)

live_later :
    (before now : ℕ) (o : Option PresenceEntry)
    → before ≤ now
    → live now (live before o) ≡ live now o
live_later before now none h = refl
live_later before now (some e) h = elim (Bool-cases (is_expired before e)) [
  | inl gone ↦ rw gone (rw (is_expired_mono before now e h gone) refl)
  | inr stays ↦ rw stays refl
]

-- A sweep changes nothing that the tracker shows, then or later.
pub get_presence-sweep_expired :
    {W : Type 0} (services : Services W) (clock : W → ℕ) (account : String) (entries : Entries)
    (w w' : W)
    → IsMap entries
    → clock w ≤ clock w'
    → get_presence clock account (sweep_expired services clock entries w).1 w'
      ≡ get_presence clock account entries w'
unfolding get_presence
get_presence-sweep_expired services clock account entries w w' h later =
    ap (live (clock w')) (
      ap (Dict.get account) (swept_entries services clock entries w)
      ∙ get-sweep (clock w) account entries h)
    ∙ live_later (clock w) (clock w') (Dict.get account entries) later

-- Presence set with a time-to-live is shown while less than that time has passed, and no longer.
pub get_presence-set_presence :
    {W : Type 0} (services : Services W) (clock : W → ℕ) (account : String)
    (status : PresenceStatus) (ttl : ℕ) (metadata : Option Metadata) (entries : Entries) (w w' : W)
    → get_presence clock account
        (set_presence services clock account status (some ttl) metadata entries w).1
        w'
      ≡ (if leb (clock w + ttl * 1000) (clock w')
          then none
          else some (record {
            account_id = account;
            status = status;
            updated_at = clock w;
            expires_at = some (clock w + ttl * 1000);
            metadata = metadata;
          }))
unfolding get_presence set_presence is_expired
get_presence-set_presence services clock account status ttl metadata entries w w' =
    ap (live (clock w')) (get-set_same account _ entries)
