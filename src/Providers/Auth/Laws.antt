-- ===== src/Providers/Auth/Laws.antt =====
-- How long a session is good, over any store that keeps the laws.
use ascended_core.Base.{
  ℕ, ◌+◌, String, ◌≡◌, refl, sym, ap, ◌∙◌, true, false, Option, none, some, leb, eq_refl,
  if◌then◌else◌, Bool-cases, Option-cases, inl, inr,
}
use mathlib.Core.Option.{some-ne-none}
use ascended_core.Providers.Auth.{
  AuthSession, SessionStore, SessionStoreLaws, verify_session, issue_session,
}

module _ {S : Type 0} (store : SessionStore S) (laws : SessionStoreLaws S store) where
  -- the three ways of a verification
  verify_unknown :
      (now : ℕ) (token : String) (s : S)
      → store.load token s ≡ none
      → verify_session store now token s ≡ (none, s)
  unfolding verify_session
  verify_unknown now token s h = simp (h, verify_session)

  verify_expired :
      (now : ℕ) (token : String) (s : S) (session : AuthSession)
      → store.load token s ≡ some session
      → leb session.expires_at now ≡ true
      → verify_session store now token s ≡ (none, store.remove token s)
  unfolding verify_session
  verify_expired now token s session h late = simp (h, verify_session, late)

  verify_good :
      (now : ℕ) (token : String) (s : S) (session : AuthSession)
      → store.load token s ≡ some session
      → leb session.expires_at now ≡ false
      → verify_session store now token s ≡ (some session, s)
  unfolding verify_session
  verify_good now token s session h early = simp (h, verify_session, early)

  load_saved :
      (token : String) (session : AuthSession) (s : S)
      → store.load token (store.save token session s) ≡ some session
  load_saved token session s = laws.load_save token token session s ∙ (rw (eq_refl token) refl)

  load_removed : (token : String) (s : S) → store.load token (store.remove token s) ≡ none
  load_removed token s = laws.load_remove token token s ∙ (rw (eq_refl token) refl)

  -- An issued session verifies under its token until its lifetime is over, and no longer.
  pub verify-issue_session :
      (ttl_ms now now' : ℕ) (account_id session_id token : String) (s : S)
      → let (issued, s') = issue_session store ttl_ms now account_id session_id token s in
        (verify_session store now' issued.token s').0
        ≡ (if leb (now + ttl_ms) now' then none else some issued.session)
  unfolding issue_session
  verify-issue_session ttl_ms now now' account_id session_id token s =
      elim (Bool-cases (leb (now + ttl_ms) now')) [
        | inl late ↦
            ap (λ (r : Option AuthSession × S). r.0)
              (verify_expired now' token _ _ (load_saved token _ s) late)
            ∙ (rw late refl)
        | inr early ↦
            ap (λ (r : Option AuthSession × S). r.0)
              (verify_good now' token _ _ (load_saved token _ s) early)
            ∙ (rw early refl)
      ]

  -- A token that was refused once is refused at every other time, an earlier one included.
  pub verify-verify :
      (now now' : ℕ) (token : String) (s : S)
      → (verify_session store now token s).0 ≡ none
      → (verify_session store now' token (verify_session store now token s).1).0 ≡ none
  verify-verify now now' token s refused = elim (Option-cases (store.load token s)) [
    | inl unknown ↦
        ap (λ (r : Option AuthSession × S). (verify_session store now' token r.1).0)
          (verify_unknown now token s unknown)
        ∙ ap (λ (r : Option AuthSession × S). r.0) (verify_unknown now' token s unknown)
    | inr (session, found) ↦ elim (Bool-cases (leb session.expires_at now)) [
      | inl late ↦
          ap (λ (r : Option AuthSession × S). (verify_session store now' token r.1).0)
            (verify_expired now token s session found late)
          ∙ ap (λ (r : Option AuthSession × S). r.0)
              (verify_unknown now' token (store.remove token s) (load_removed token s))
      | inr early ↦ absurd (
          some-ne-none session (
            sym (
              ap (λ (r : Option AuthSession × S). r.0)
                (verify_good now token s session found early))
            ∙ refused))
    ]
  ]
