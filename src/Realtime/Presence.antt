-- ===== src/Realtime/Presence.antt =====
-- packages/realtime/src/presence.ts and local/presence.ts. Times are milliseconds; the injected
-- clock is read from the world, and stands still while a call runs. A time-to-live is a natural.
pub mod Laws
use ascended_core.Base.{
  ℕ, ◌+◌, ◌*◌, String, Bool, false, Option, none, some, List, [], ◌∷◌, leb, if◌then◌else◌,
}
use ascended_core.Base.Dict
use ascended_core.Base.Dict.{Dict}
use ascended_core.Core.Value.{Items, nil, cons, string, array, end, field, Metadata}
use ascended_core.Core.Result.{ok}
use ascended_core.Realtime.{Services, Answer, emit_and_return}

pub data PresenceStatus : Type 0 where
  online away offline : PresenceStatus

-- the values of the enumeration
status_text : PresenceStatus → String
status_text online = "online"
status_text away = "away"
status_text offline = "offline"

pub record PresenceEntry : Type 0 where
  pub account_id : String
  pub status : PresenceStatus
  pub updated_at : ℕ
  pub expires_at : Option ℕ
  pub metadata : Option Metadata

abbrev pub Entries : Type 0
Entries = Dict PresenceEntry

unfoldable pub is_expired : ℕ → PresenceEntry → Bool
is_expired now entry = elim entry.expires_at [ none ↦ false | some t ↦ leb t now ]

-- the accounts that the sweep deletes, in the order of the map, and the entries that it leaves
unfoldable pub sweep : ℕ → Entries → List String × Entries
unfolding is_expired
sweep now [] = ([], [])
sweep now ((account, entry) ∷ m) =
    let (swept, left) = sweep now m in
    if is_expired now entry then (account ∷ swept, left) else (swept, (account, entry) ∷ left)

texts : List String → Items
texts [] = nil
texts (s ∷ ss) = cons (string s) (texts ss)

-- the two early returns of `getPresence`
abbrev pub live : ℕ → Option PresenceEntry → Option PresenceEntry
live now none = none
live now (some entry) = if is_expired now entry then none else some entry

unfoldable pub get_presence : {W : Type 0} → (W → ℕ) → String → Entries → W → Option PresenceEntry
get_presence clock account entries w = live (clock w) (Dict.get account entries)

module _ {W : Type 0} (services : Services W) (clock : W → ℕ) where
  pub set_presence :
      String
      → PresenceStatus
      → Option ℕ
      → Option Metadata
      → Entries
      → W
      → Answer PresenceEntry Entries W
  unfolding status_text
  set_presence account status ttl_seconds metadata entries w =
      let now = clock w in
      let entry : PresenceEntry = record {
        account_id = account;
        status = status;
        updated_at = now;
        expires_at = elim ttl_seconds [ none ↦ none | some ttl ↦ some (now + ttl * 1000) ];
        metadata = metadata;
      } in
      emit_and_return services "realtime.presence_updated"
        (field "accountId" (string account) (field "status" (string (status_text status)) end))
        entry (Dict.set account entry entries) w

  -- only a sweep that deletes something is announced
  pub announce_swept : List String → Entries → W → Answer (List String) Entries W
  unfolding texts
  announce_swept [] left w = (ok [], left, w)
  announce_swept (account ∷ swept) left w =
      emit_and_return services "realtime.presence_expired"
        (field "accountIds" (array (texts (account ∷ swept))) end) (account ∷ swept) left w

  pub sweep_expired : Entries → W → Answer (List String) Entries W
  unfolding sweep announce_swept
  sweep_expired entries w =
      let (swept, left) = sweep (clock w) entries in announce_swept swept left w
