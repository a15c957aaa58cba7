-- ===== src/Providers/Auth.antt =====
-- packages/providers/src/auth.ts. Times are milliseconds. The ids that `createId` makes and the
-- clock's time are arguments. The provider takes its `SessionStore` as an interface.
pub mod Laws
use ascended_core.Base.{
  ℕ, ◌+◌, ◌*◌, String, ◌≡◌, Bool, true, false, Option, none, some, leb, str_eq, if◌then◌else◌,
}
use ascended_core.Base.Dict
use ascended_core.Base.Dict.{Dict, get-set, get-delete}
use ascended_core.Core.Value.{Metadata}

pub record AuthSession : Type 0 where
  pub session_id : String
  pub account_id : String
  pub issued_at : ℕ
  pub expires_at : ℕ
  pub metadata : Option Metadata

pub record IssuedSession : Type 0 where
  pub token : String
  pub session : AuthSession

pub record SessionStore (S : Type 0) : Type 0 where
  pub save : String → AuthSession → S → S
  pub load : String → S → Option AuthSession
  pub remove : String → S → S

-- what the provider relies on in a store
pub record SessionStoreLaws (S : Type 0) (store : SessionStore S) : Type 0 where
  pub load_save :
      (token j : String) (session : AuthSession) (s : S)
      → store.load j (store.save token session s)
        ≡ (if str_eq token j then some session else store.load j s)
  pub load_remove :
      (token j : String) (s : S)
      → store.load j (store.remove token s) ≡ (if str_eq token j then none else store.load j s)

-- `InMemorySessionStore`
unfoldable pub in_memory_session_store : SessionStore (Dict AuthSession)
in_memory_session_store = record {
  save = λ token session s. Dict.set token session s;
  load = λ token s. Dict.get token s;
  remove = λ token s. Dict.delete token s;
}

pub in_memory_session_store_laws : SessionStoreLaws (Dict AuthSession) in_memory_session_store
unfolding in_memory_session_store
in_memory_session_store_laws = record {
  load_save = λ token j session s. get-set token j session s;
  load_remove = λ token j s. get-delete token j s;
}

abbrev pub one_hour_ms : ℕ
one_hour_ms = 60 * 60 * 1000

-- `options.sessionTtlMs ?? ONE_HOUR_MS`
unfoldable pub ttl_of : Option ℕ → ℕ
ttl_of none = one_hour_ms
ttl_of (some ms) = ms

module _ {S : Type 0} (store : SessionStore S) where
  pub verify_session : ℕ → String → S → Option AuthSession × S
  verify_session now token s = elim (store.load token s) [
    | none ↦ (none, s)
    | some session ↦
        if leb session.expires_at now then (none, store.remove token s) else (some session, s)
  ]

  pub issue_session : ℕ → ℕ → String → String → String → S → IssuedSession × S
  issue_session ttl_ms now account_id session_id token s =
      let session : AuthSession = record {
        session_id = session_id;
        account_id = account_id;
        issued_at = now;
        expires_at = now + ttl_ms;
        metadata = none;
      } in
      (record { token = token; session = session }, store.save token session s)
