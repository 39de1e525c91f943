-- ===== src/Taskqueue/Flags.antt =====
-- The flags of a payload against what RequestPause, RequestCancel and RequestResume do.
use narou_viewer.Prelude.{
  Bool, Bool-cases, List, Result, String, [], arith, err, false, find, if◌then◌else◌, inl, inr, not,
  ok, refl, some, str_eq, str_eq_iff, str_eq_refl, true, ℕ, ◌&&◌, ◌∷◌, ◌≡◌, ◌⊎◌,
}
use narou_viewer.Taskqueue.Payload.{can_cancel_status, can_pause_status, can_resume_status, payload}
use narou_viewer.Taskstate.Behaviour.Control.{Answers, Wrote, request_action-Answers}
use narou_viewer.Taskstate.Behaviour.Race.{status_of}
use narou_viewer.Taskstate.Behaviour.Reading.{find-updated}
use narou_viewer.Taskstate.Behaviour.Reservations.{FreeKey, FreeWork}
use narou_viewer.Taskstate.Behaviour.Resume.{ResumeAnswers, Resumed, request_resume-answers}
use narou_viewer.Taskstate.Control.{
  Decision, by_open_control, cancel_idle, cancel_queued, decide_action, decide_running,
  pause_queued, refuse, request_cancel, request_pause, request_resume, request_running, same_action,
  set_action, set_canceled, set_paused, set_queued, unchanged,
}
use narou_viewer.Taskstate.Invariant.{Inv}
use narou_viewer.Taskstate.Model.{
  ControlResult, Db, Error, Request, RequestedAction, Row, Status, Task, cancel, canceled, failed,
  interrupted, is_no_request, is_running, pause, paused, queued, running, succeeded,
  task_state_conflict,
}
use narou_viewer.Taskstate.Scan.{task_of}
use narou_viewer.Taskstate.Schema.{by_id, update_where}
use narou_viewer.Taskstate.Target.{Env}

-- The action succeeds and says that it changed something; the row of the task then has the property,
-- and no other row is touched.
abbrev pub Changes : String → Db → (Row → Type 0) → Result Error (Db × ControlResult) → Type 0
Changes id db P r =
    (db' : Db) × (t : Task) × (r ≡ ok (db', record { task = t; changed = true }))
    × (s : Row) × (find (by_id id) db'.tasks ≡ some s)
    × P s
    × ((other : String)
        → str_eq id other ≡ false
        → find (by_id other) db'.tasks ≡ find (by_id other) db.tasks)

-- The action is refused, or succeeds with the tables as they were, and says so.
abbrev pub Idles : Db → Result Error (Db × ControlResult) → Type 0
Idles db r =
    (r ≡ err task_state_conflict)
    ⊎ ((t : Task) × (r ≡ ok (db, record { task = t; changed = false })))

-- The task has the status of the action, or runs with the action requested.
abbrev pub Takes : RequestedAction → Row → Type 0
Takes a s = (s.status ≡ status_of a) ⊎ ((s.status ≡ running) × (s.requested_action ≡ a))

abbrev pub IsQueued : Row → Type 0
IsQueued s = s.status ≡ queued

-- No action of a running task is decided yet: its result is not committed, and none is requested.
abbrev pub is_undecided : Row → Bool
is_undecided r =
    if is_running r.status
    then not r.execution_committed && is_no_request r.requested_action
    else true

-- Whether a decision writes.
abbrev writes : Decision → Bool
writes refuse = false
writes unchanged = false
writes _ = true

decide-pause :
    (r : Row)
    → can_pause_status r.status ≡ true
    → is_undecided r ≡ true
    → writes (decide_action r.status r.execution_committed r.requested_action pause) ≡ true
unfolding decide_action
decide-pause r h u = ground arith

decide-cancel :
    (r : Row)
    → can_cancel_status r.status ≡ true
    → is_undecided r ≡ true
    → writes (decide_action r.status r.execution_committed r.requested_action cancel) ≡ true
unfolding decide_action
decide-cancel r h u = ground arith

decide-no_pause :
    (r : Row)
    → can_pause_status r.status ≡ false
    → writes (decide_action r.status r.execution_committed r.requested_action pause) ≡ false
unfolding decide_action
decide-no_pause r h = ground arith

decide-no_cancel :
    (r : Row)
    → can_cancel_status r.status ≡ false
    → writes (decide_action r.status r.execution_committed r.requested_action cancel) ≡ false
unfolding decide_action
decide-no_cancel r h = ground arith

-- What a decision does to the row is what its action asks for.
abbrev Suits : Decision → RequestedAction → Row → Type 0
Suits pause_queued a r = a ≡ pause
Suits cancel_queued a r = a ≡ cancel
Suits cancel_idle a r = a ≡ cancel
Suits request_running a r = r.status ≡ running
Suits _ a r = Unit

running-Suits :
    (committed : Bool) (current a : RequestedAction) (r : Row)
    → r.status ≡ running
    → Suits (decide_running committed current a) a r
running-Suits true current a r e = tt
running-Suits false current a r e = elim (Bool-cases (same_action current a)) [
  | inl t ↦ rw t tt
  | inr f ↦ elim (Bool-cases (is_no_request current)) [ inl t ↦ rw (f, t) e | inr g ↦ rw (f, g) tt ]
]

decide-Suits :
    (s : Status) (committed : Bool) (current a : RequestedAction) (r : Row)
    → r.status ≡ s
    → Suits (decide_action s committed current a) a r
unfolding decide_action
decide-Suits succeeded committed current a r e = tt
decide-Suits canceled committed current a r e = tt
decide-Suits running committed current a r e = running-Suits committed current a r e
decide-Suits queued committed current pause r e = refl
decide-Suits queued committed current cancel r e = refl
decide-Suits paused committed current cancel r e = refl
decide-Suits interrupted committed current cancel r e = refl
decide-Suits failed committed current cancel r e = refl
decide-Suits _ committed current _ r e = tt

-- An UPDATE of the rows of one id leaves the others.
find-others :
    (p : Row → Bool) (f : Row → Row) (id other : String) (rows : List Row)
    → ((r : Row) → p r ≡ true → by_id id r ≡ true)
    → ((r : Row) → (f r).task_id ≡ r.task_id)
    → str_eq id other ≡ false
    → find (by_id other) (update_where p f rows) ≡ find (by_id other) rows
unfolding find update_where
find-others p f id other [] names ids apart = refl
find-others p f id other (r ∷ rows) names ids apart =
    let rest = find-others p f id other rows names ids apart in
    elim (Bool-cases (p r)) [
      | inl t ↦
          let same : r.task_id ≡ id = (str_eq_iff r.task_id id).0 (names r t) in
          rw (t, ids r, same, apart) rest
      | inr e ↦ rw (e, rest) refl
    ]

module _ (env : Env) where
  Wrote-Changes :
      (p : Row → Bool) (f : Row → Row) (q : List String) (db : Db) (row : Row)
      (r : Result Error (Db × ControlResult)) (P : Row → Type 0)
      → ((r : Row) → p r ≡ true → by_id row.task_id r ≡ true)
      → ((r : Row) → (f r).task_id ≡ r.task_id)
      → P (f row)
      → Wrote env p f q db row r
      → Changes row.task_id db P r
  Wrote-Changes p f q db row r P names ids holds (request, wrote, found) = (
    _,
    _,
    wrote,
    f row,
    found,
    holds,
    λ other apart. find-others p f row.task_id other db.tasks names ids apart,
  )

  Answers-Changes :
      (d : Decision) (a : RequestedAction) (now : ℕ) (db : Db) (row : Row)
      (r : Result Error (Db × ControlResult))
      → Suits d a row
      → Answers env d a now db row r
      → (writes d ≡ true → Changes row.task_id db (Takes a) r) × (writes d ≡ false → Idles db r)
  Answers-Changes refuse a now db row r e h = ((λ w. absurd (cc)), λ w. inl h)
  Answers-Changes unchanged a now db row r e h = ((λ w. absurd (cc)), λ w. inr (_, h.1))
  Answers-Changes pause_queued a now db row r e h = (
    (λ w.
        Wrote-Changes (by_id row.task_id) (set_paused now) _ db row r (Takes a) (λ x t. t)
          (λ x. unfold set_paused in refl) (unfold set_paused in inl (rw e refl)) h),
    λ w. absurd (cc),
  )
  Answers-Changes cancel_queued a now db row r e h = (
    (λ w.
        Wrote-Changes (by_id row.task_id) (set_canceled now) _ db row r (Takes a) (λ x t. t)
          (λ x. unfold set_canceled in refl) (unfold set_canceled in inl (rw e refl)) h),
    λ w. absurd (cc),
  )
  Answers-Changes cancel_idle a now db row r e h = (
    (λ w.
        Wrote-Changes (by_id row.task_id) (set_canceled now) _ db row r (Takes a) (λ x t. t)
          (λ x. unfold set_canceled in refl) (unfold set_canceled in inl (rw e refl)) h),
    λ w. absurd (cc),
  )
  Answers-Changes request_running a now db row r e h = (
    (λ w.
        Wrote-Changes (by_open_control row.task_id) (set_action a now) _ db row r (Takes a)
          (λ x t. ground arith) (λ x. unfold set_action in refl)
          (unfold set_action in inr (e, refl)) h),
    λ w. absurd (cc),
  )

  resumed :
      (now : ℕ) (db : Db) (row : Row) (r : Result Error (Db × ControlResult))
      → find (by_id row.task_id) db.tasks ≡ some row
      → Resumed env now db row r
      → Changes row.task_id db IsQueued r
  resumed now db row r found (q, e) =
      Wrote-Changes (by_id row.task_id) (set_queued now) _ db row r IsQueued (λ x t. t)
        (λ x. unfold set_queued in refl) (unfold set_queued in refl)
        (
          q,
          e,
          find-updated env (by_id row.task_id) (set_queued now) row.task_id db.tasks row
              (λ x. unfold set_queued in refl) found (str_eq_refl row.task_id),
        )

  resume-Changes :
      (s : Status) (now : ℕ) (db : Db) (row : Row) (r : Result Error (Db × ControlResult))
      → find (by_id row.task_id) db.tasks ≡ some row
      → ResumeAnswers env s now db row r
      → (can_resume_status s ≡ true
          → FreeKey row db
          → FreeWork row db
          → Changes row.task_id db IsQueued r)
        × (can_resume_status s ≡ false → Idles db r)
  resume-Changes queued now db row r f h = ((λ e. absurd (cc)), λ e. inr (_, h.1))
  resume-Changes running now db row r f h = ((λ e. absurd (cc)), λ e. inr (_, h.1))
  resume-Changes canceled now db row r f h = ((λ e. absurd (cc)), λ e. inl h)
  resume-Changes succeeded now db row r f h = ((λ e. absurd (cc)), λ e. inl h)
  resume-Changes paused now db row r f h = ((λ e k w. resumed now db row r f h), λ e. absurd (cc))
  resume-Changes interrupted now db row r f h =
      ((λ e k w. resumed now db row r f h), λ e. absurd (cc))
  resume-Changes failed now db row r f h =
      ((λ e k w. resumed now db row r f (h.0 k w)), λ e. absurd (cc))

  -- The flags that the API shows for a stored task, on tables that meet the invariant, are what the
  -- repository does. Where can_pause or can_cancel is set, the action succeeds, and the task is then
  -- paused or canceled, or runs with the action requested, unless a running task has committed its
  -- result or has an action requested; where can_resume is set, resuming succeeds and the task is
  -- queued, if no other task has reserved the key or the work. Either way no other task is touched.
  -- Where a flag is not set, the action is refused or answers that nothing changed, and the tables
  -- are as they were.
  pub flags-truthful :
      (now : ℕ) (db : Db) (row : Row) (q : Request)
      → Inv env db
      → find (by_id row.task_id) db.tasks ≡ some row
      → let shown = payload (task_of row q) in
        let id = row.task_id in
        (shown.can_pause ≡ true
          → is_undecided row ≡ true
          → Changes id db (Takes pause) (request_pause env id now db))
        × (shown.can_pause ≡ false → Idles db (request_pause env id now db))
        × (shown.can_cancel ≡ true
            → is_undecided row ≡ true
            → Changes id db (Takes cancel) (request_cancel env id now db))
        × (shown.can_cancel ≡ false → Idles db (request_cancel env id now db))
        × (shown.can_resume ≡ true
            → FreeKey row db
            → FreeWork row db
            → Changes id db IsQueued (request_resume env id now db))
        × (shown.can_resume ≡ false → Idles db (request_resume env id now db))
  unfolding payload
  flags-truthful now db row q i found =
      let asked : (a : RequestedAction) → _ = λ a.
        Answers-Changes _ a now db row _
          (decide-Suits row.status row.execution_committed row.requested_action a row refl)
          (request_action-Answers env a now db row i found) in
      let resuming =
        resume-Changes row.status now db row _ found
          (request_resume-answers env now db row i found) in
      (
        (λ h u. (asked pause).0 (decide-pause row h u)),
        (λ h. (asked pause).1 (decide-no_pause row h)),
        (λ h u. (asked cancel).0 (decide-cancel row h u)),
        (λ h. (asked cancel).1 (decide-no_cancel row h)),
        resuming.0,
        resuming.1,
      )
