-- ===== src/Realtime/Calls/Histories.antt =====
-- Sequences of calls of the call sessions: each session goes through its state machine.
use ascended_core.Base.{
  String, ◌≡◌, refl, sym, subst, inl, inr, none, some, ◌≢◌, List, [], ◌∷◌, arith, str_eq, eq_iff,
  Bool-cases, Option-cases,
}
use ascended_core.Base.Dict
use ascended_core.Base.Dict.Laws.{get-set_same, get-set_other}
use ascended_core.Realtime.{Services, Answer}
use ascended_core.Realtime.Calls.{
  CallSessionState, created, active, ended, CallSession, PartialMediaState,
  CreateCallSessionOptions, Sessions, has_participant, update_media, create_session_named,
  create_session, admit, add_participant, remove_participant, update_media_state, end_session,
  session_missing, session_ended, unless_ended,
}
use ascended_core.Realtime.Calls.Steps.{
  CallStep, admission, removal, media_change, ending, Change, kept, birth, moved, Changes, start,
  and_then, IsSound, IsOverFor, changes-IsSound, changes-IsOverFor,
}

pub data CallCommand : Type 0 where
  create : CreateCallSessionOptions → CallCommand
  add : String → String → PartialMediaState → CallCommand
  remove : String → String → CallCommand
  update : String → String → PartialMediaState → CallCommand
  end_call : String → CallCommand

abbrev without_answer : {A S W : Type 0} → Answer A S W → S × W
without_answer a = (a.1, a.2)

module _ {W : Type 0} (services : Services W) where
  -- the sessions and the world behind a call, whether it fulfils or rejects
  pub after_command : CallCommand → Sessions → W → Sessions × W
  after_command (create options) sessions w =
      without_answer (create_session services options sessions w)
  after_command (add id account media) sessions w =
      without_answer (add_participant services id account media sessions w)
  after_command (remove id account) sessions w =
      without_answer (remove_participant services id account sessions w)
  after_command (update id account media) sessions w =
      without_answer (update_media_state services id account media sessions w)
  after_command (end_call id) sessions w = without_answer (end_session services id sessions w)

  pub after_commands : List CallCommand → Sessions → W → Sessions × W
  unfolding after_command
  after_commands [] sessions w = (sessions, w)
  after_commands (c ∷ cs) sessions w =
      let (sessions', w') = after_command c sessions w in after_commands cs sessions' w'

-- a session that is stored is one that its key held before, moved on
Change-set :
    (id k : String) (sessions : Sessions) (s t : CallSession)
    → Dict.get k sessions ≡ some s
    → CallStep s t
    → Change (Dict.get id sessions) (Dict.get id (Dict.set k t sessions))
Change-set id k sessions s t found step = elim (Bool-cases (str_eq k id)) [
  | inl same ↦
      let keys = (eq_iff k id).0 same in
      subst (λ i. Change (Dict.get i sessions) (Dict.get i (Dict.set k t sessions))) keys
        (subst (λ o. Change o (Dict.get k (Dict.set k t sessions))) (sym found)
          (subst (Change (some s)) (sym (get-set_same k t sessions)) (moved s t step)))
  | inr differ ↦
      subst (Change (Dict.get id sessions)) (sym (get-set_other k id t sessions differ))
        (kept (Dict.get id sessions))
]

Change-birth :
    (id k : String) (sessions : Sessions) (s : CallSession)
    → Dict.get k sessions ≡ none
    → s.state ≡ created
    → s.participants ≡ []
    → Change (Dict.get id sessions) (Dict.get id (Dict.set k s sessions))
Change-birth id k sessions s free new empty = elim (Bool-cases (str_eq k id)) [
  | inl same ↦
      let keys = (eq_iff k id).0 same in
      subst (λ i. Change (Dict.get i sessions) (Dict.get i (Dict.set k s sessions))) keys
        (subst (λ o. Change o (Dict.get k (Dict.set k s sessions))) (sym free)
          (subst (Change none) (sym (get-set_same k s sessions)) (birth s new empty)))
  | inr differ ↦
      subst (Change (Dict.get id sessions)) (sym (get-set_other k id s sessions differ))
        (kept (Dict.get id sessions))
]

unless_ended_lem :
    {A : Type 0} (state : CallSessionState) (refused rest : A) (P : A → Type 0)
    → P refused
    → (state ≢ ended → P rest)
    → P (unless_ended state refused rest)
unless_ended_lem ended refused rest P p q = p
unless_ended_lem created refused rest P p q = q (λ e. ground (arith, e))
unless_ended_lem active refused rest P p q = q (λ e. ground (arith, e))

module _ {W : Type 0} (services : Services W) (id : String) where
  create_named-Change :
      (k : String) (options : CreateCallSessionOptions) (sessions : Sessions) (w : W)
      → Change
          (Dict.get id sessions)
          (Dict.get id (create_session_named services k options sessions w).1)
  unfolding create_session_named
  create_named-Change k options sessions w = elim (Option-cases (Dict.get k sessions)) [
    | inl free ↦ rw (free, create_session_named) (Change-birth id k sessions _ free refl refl)
    | inr (s, taken) ↦ rw (taken, create_session_named) (kept (Dict.get id sessions))
  ]

  admit-Change :
      (k account : String) (media : PartialMediaState) (s : CallSession) (sessions : Sessions)
      (w : W)
      → Dict.get k sessions ≡ some s
      → s.state ≢ ended
      → Change (Dict.get id sessions) (Dict.get id (admit services k account media s sessions w).1)
  unfolding admit
  admit-Change k account media s sessions w found going =
      elim (Bool-cases (has_participant account s.participants)) [
        | inl twice ↦ rw (twice, admit) (kept (Dict.get id sessions))
        | inr absent ↦
            rw (absent, admit) (Change-set id k sessions s _ found (admission s _ going absent))
      ]

  add-Change :
      (k account : String) (media : PartialMediaState) (sessions : Sessions) (w : W)
      → Change
          (Dict.get id sessions)
          (Dict.get id (add_participant services k account media sessions w).1)
  unfolding add_participant session_missing session_ended
  add-Change k account media sessions w = elim (Option-cases (Dict.get k sessions)) [
    | inl missing ↦ rw (missing, add_participant) (kept (Dict.get id sessions))
    | inr (s, found) ↦
        rw (found, add_participant)
          (unless_ended_lem {A = Answer CallSession Sessions W} s.state _ _
            (λ a. Change (Dict.get id sessions) (Dict.get id a.1)) (kept (Dict.get id sessions))
            (λ going. admit-Change k account media s sessions w found going))
  ]

  remove-Change :
      (k account : String) (sessions : Sessions) (w : W)
      → Change
          (Dict.get id sessions)
          (Dict.get id (remove_participant services k account sessions w).1)
  unfolding remove_participant session_missing
  remove-Change k account sessions w = elim (Option-cases (Dict.get k sessions)) [
    | inl missing ↦ rw (missing, remove_participant) (kept (Dict.get id sessions))
    | inr (s, found) ↦
        rw (found, remove_participant) (Change-set id k sessions s _ found (removal s account))
  ]

  update-Change :
      (k account : String) (media : PartialMediaState) (sessions : Sessions) (w : W)
      → Change
          (Dict.get id sessions)
          (Dict.get id (update_media_state services k account media sessions w).1)
  unfolding update_media_state session_missing
  update-Change k account media sessions w = elim (Option-cases (Dict.get k sessions)) [
    | inl missing ↦ rw (missing, update_media_state) (kept (Dict.get id sessions))
    | inr (s, found) ↦ elim (Option-cases (update_media account media s.participants)) [
      | inl absent ↦
          rw (found, update_media_state)
            (rw (absent, update_media_state) (kept (Dict.get id sessions)))
      | inr (ps, updated) ↦
          rw (found, update_media_state)
            (rw (updated, update_media_state)
              (Change-set id k sessions s _ found (media_change s account media ps updated)))
    ]
  ]

  end-Change :
      (k : String) (sessions : Sessions) (w : W)
      → Change (Dict.get id sessions) (Dict.get id (end_session services k sessions w).1)
  unfolding end_session session_missing
  end-Change k sessions w = elim (Option-cases (Dict.get k sessions)) [
    | inl missing ↦ rw (missing, end_session) (kept (Dict.get id sessions))
    | inr (s, found) ↦
        rw (found, end_session) (Change-set id k sessions s _ found (ending s (services.now_iso w)))
  ]

  command-Change :
      (c : CallCommand) (sessions : Sessions) (w : W)
      → Change (Dict.get id sessions) (Dict.get id (after_command services c sessions w).0)
  unfolding after_command create_session
  command-Change (create options) sessions w = elim (Option-cases options.id) [
    | inl generated ↦
        rw (generated, create_session)
          (let (k, w') = services.create_id "call" w in create_named-Change k options sessions w')
    | inr (k, given) ↦ rw (given, create_session) (create_named-Change k options sessions w)
  ]
  command-Change (add k account media) sessions w = add-Change k account media sessions w
  command-Change (remove k account) sessions w = remove-Change k account sessions w
  command-Change (update k account media) sessions w = update-Change k account media sessions w
  command-Change (end_call k) sessions w = end-Change k sessions w

  -- Whatever calls are made, in whatever order, and whether they fulfil or reject, what is stored
  -- under an id goes through the steps of the session state machine: a session begins as created
  -- and empty, and each later change is an admission to a session that has not ended of an account
  -- that is not in it, a removal, a change of media, or an ending.
  pub after_commands-Changes :
      (cs : List CallCommand) (sessions : Sessions) (w : W)
      → Changes (Dict.get id sessions) (Dict.get id (after_commands services cs sessions w).0)
  unfolding after_commands
  after_commands-Changes [] sessions w = start (Dict.get id sessions)
  after_commands-Changes (c ∷ cs) sessions w =
      let (sessions', w') = after_command services c sessions w in
      and_then _ _ _ (command-Change c sessions w) (after_commands-Changes cs sessions' w')

  -- Once a session has ended, it stays stored and ended whatever calls follow, and an account that
  -- is not in it then never gets in.
  pub after_commands-IsOverFor :
      (account : String) (cs : List CallCommand) (sessions : Sessions) (w : W)
      → IsOverFor account (Dict.get id sessions)
      → IsOverFor account (Dict.get id (after_commands services cs sessions w).0)
  after_commands-IsOverFor account cs sessions w =
      changes-IsOverFor account _ _ (after_commands-Changes cs sessions w)

  -- From no sessions, no account is ever twice in one session.
  pub after_commands-IsSound :
      (cs : List CallCommand) (w : W) → IsSound (Dict.get id (after_commands services cs [] w).0)
  unfolding IsSound Dict.get
  after_commands-IsSound cs w = changes-IsSound none _ (after_commands-Changes cs [] w) tt
