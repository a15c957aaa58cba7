-- ===== src/Realtime/Calls/Accounts.antt =====
-- The accounts of a list of call participants, under the changes that the calls make.
use ascended_core.Base.{
  String, ◌≡◌, refl, sym, ap, subst, ◌∙◌, ◌⊎◌, inl, inr, Bool, true, false, ◌||◌, none, some, List,
  [], ◌∷◌, ◌++◌, filter, arith, str_eq, str_eq_comm, Bool-cases, Option-cases,
}
use mathlib.Core.Option
use mathlib.Core.Option.{some-injective, none-ne-some}
use ascended_core.Realtime.Calls.{
  CallParticipant, PartialMediaState, merge_media, has_participant, update_media,
}

-- no account is in the list twice
unfoldable pub HasOnceEach : List CallParticipant → Type 0
HasOnceEach [] = Unit
HasOnceEach (p ∷ ps) = (has_participant p.account_id ps ≡ false) × HasOnceEach ps

has_participant-append :
    (account : String) (ps : List CallParticipant) (p : CallParticipant)
    → has_participant account (ps ++ p ∷ [])
      ≡ (has_participant account ps || str_eq p.account_id account)
unfolding has_participant
has_participant-append account [] p = ground arith
has_participant-append account (q ∷ ps) p = ground (arith, has_participant-append account ps p)

pub HasOnceEach-append :
    (ps : List CallParticipant) (p : CallParticipant)
    → HasOnceEach ps
    → has_participant p.account_id ps ≡ false
    → HasOnceEach (ps ++ p ∷ [])
unfolding HasOnceEach has_participant
HasOnceEach-append [] p h absent = (refl, tt)
HasOnceEach-append (q ∷ ps) p h absent = (
  has_participant-append q.account_id ps p
      ∙ (rw h.0 (
          str_eq_comm p.account_id q.account_id
          ∙ ground (arith, absent, str_eq_comm p.account_id q.account_id))),
  HasOnceEach-append ps p h.1 ground (arith, absent),
)

pub has_participant-filter :
    (account : String) (keep : CallParticipant → Bool) (ps : List CallParticipant)
    → has_participant account ps ≡ false
    → has_participant account (filter keep ps) ≡ false
unfolding has_participant
has_participant-filter account keep [] h = refl
has_participant-filter account keep (p ∷ ps) h =
    ground (arith, h, has_participant-filter account keep ps)

pub HasOnceEach-filter :
    (keep : CallParticipant → Bool) (ps : List CallParticipant)
    → HasOnceEach ps
    → HasOnceEach (filter keep ps)
unfolding HasOnceEach
HasOnceEach-filter keep [] h = tt
HasOnceEach-filter keep (p ∷ ps) h = elim (Bool-cases (keep p)) [
  | inl kept ↦
      rw kept (has_participant-filter p.account_id keep ps h.0, HasOnceEach-filter keep ps h.1)
  | inr dropped ↦ rw dropped (HasOnceEach-filter keep ps h.1)
]

update_media_nil :
    (account : String) (media : PartialMediaState) → update_media account media [] ≡ none
unfolding update_media
update_media_nil account media = refl

update_media_here :
    (account : String) (media : PartialMediaState) (p : CallParticipant) (ps : List CallParticipant)
    → str_eq p.account_id account ≡ true
    → update_media account media (p ∷ ps)
      ≡ some (record p { media = merge_media p.media media } ∷ ps)
unfolding update_media
update_media_here account media p ps same = simp same

update_media_there :
    (account : String) (media : PartialMediaState) (p : CallParticipant) (ps : List CallParticipant)
    → str_eq p.account_id account ≡ false
    → update_media account media (p ∷ ps)
      ≡ Option.map (λ qs. p ∷ qs) (update_media account media ps)
unfolding update_media
update_media_there account media p ps differ = simp differ

-- what an update of a list that is not empty gives
updated_list :
    (account : String) (media : PartialMediaState) (p : CallParticipant)
    (ps qs : List CallParticipant)
    → update_media account media (p ∷ ps) ≡ some qs
    → (record p { media = merge_media p.media media } ∷ ps ≡ qs)
      ⊎ ((rest : List CallParticipant) × (update_media account media ps ≡ some rest)
          × (p ∷ rest ≡ qs))
updated_list account media p ps qs h = elim (Bool-cases (str_eq p.account_id account)) [
  | inl same ↦ inl (some-injective _ qs (sym (update_media_here account media p ps same) ∙ h))
  | inr differ ↦ elim (Option-cases (update_media account media ps)) [
    | inl missing ↦ absurd (
        none-ne-some qs
          (sym (update_media_there account media p ps differ ∙ (rw missing refl)) ∙ h))
    | inr (rest, found) ↦ inr (
      rest,
      found,
      some-injective (p ∷ rest) qs
          (sym (update_media_there account media p ps differ ∙ (rw found refl)) ∙ h),
    )
  ]
]

-- an update keeps the accounts
pub has_participant-update_media :
    (j account : String) (media : PartialMediaState) (ps qs : List CallParticipant)
    → update_media account media ps ≡ some qs
    → has_participant j qs ≡ has_participant j ps
unfolding has_participant update_media
has_participant-update_media j account media [] qs h = ground (arith, h)
has_participant-update_media j account media (p ∷ ps) qs h =
    elim (updated_list account media p ps qs h) [
      | inl e ↦ ap (has_participant j) (sym e)
      | inr (rest, found, e) ↦
          ap (has_participant j) (sym e)
          ∙ ap (λ b. str_eq p.account_id j || b)
              (has_participant-update_media j account media ps rest found)
    ]

pub HasOnceEach-update_media :
    (account : String) (media : PartialMediaState) (ps qs : List CallParticipant)
    → update_media account media ps ≡ some qs
    → HasOnceEach ps
    → HasOnceEach qs
unfolding HasOnceEach
HasOnceEach-update_media account media [] qs h once =
    absurd (none-ne-some qs (sym (update_media_nil account media) ∙ h))
HasOnceEach-update_media account media (p ∷ ps) qs h once =
    elim (updated_list account media p ps qs h) [
      | inl e ↦ subst HasOnceEach e once
      | inr (rest, found, e) ↦ subst HasOnceEach e (
        has_participant-update_media p.account_id account media ps rest found ∙ once.0,
        HasOnceEach-update_media account media ps rest found once.1,
      )
    ]
