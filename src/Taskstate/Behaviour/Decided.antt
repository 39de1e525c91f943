-- ===== src/Taskstate/Behaviour/Decided.antt =====
-- taskstate/sqlite.go and CompleteWorkForTask of storage/store.go: a commit and a request of one
-- attempt, the first of which decides for good.
use narou_viewer.Prelude.{
  String, ◌&&◌, ◌==◌, Ensures-apply, List, arith, err, false, find, find-holds, inl, inr, ok, refl,
  some, str_eq_iff, subst, sym, true, ℕ, ◌<◌, ◌∙◌, ◌≡◌, ◌≢◌, ◌⊎◌,
}
use narou_viewer.Taskstate.Behaviour.Control.{Answers, request_action-Answers}
use narou_viewer.Taskstate.Behaviour.Ending.{Ends, commit_ok, finalize_ok}
use narou_viewer.Taskstate.Behaviour.Fence.{commit_execution-stale}
use narou_viewer.Taskstate.Behaviour.Race.{
  action-no_request, request_recorded, requested_end, status_of,
}
use narou_viewer.Taskstate.Behaviour.Reading.{find-updated}
use narou_viewer.Taskstate.Commit.{by_commit, commit_execution, set_committed}
use narou_viewer.Taskstate.Control.{
  by_open_control, decide_action, refuse, request_action, set_action,
}
use narou_viewer.Taskstate.Evolution.Forever.{no_edge, run-At}
use narou_viewer.Taskstate.Evolution.Updates.{Evolves, moves, row_at, starts, stays, ◌⟶◌}
use narou_viewer.Taskstate.Evolution.Writes.{settle-committed}
use narou_viewer.Taskstate.Finalize.{finalize, is_final}
use narou_viewer.Taskstate.History.{Op, run, run-Inv}
use narou_viewer.Taskstate.Invariant.{Inv}
use narou_viewer.Taskstate.Keeps.Endings.{commit_execution-Inv}
use narou_viewer.Taskstate.Model.{
  Db, Outcome, RequestedAction, Row, Status, Task, TaskRef, is_no_request, is_running, no_request,
  running, stale_task_attempt, succeeded, task_state_conflict,
}
use narou_viewer.Taskstate.Scan.{task_of}
use narou_viewer.Taskstate.Schema.{by_id}
use narou_viewer.Taskstate.Target.{Env}

-- The attempt runs with its result committed, or the task succeeded.
abbrev pub IsCommitted : ℕ → Row → Type 0
IsCommitted n r =
    ((r.status ≡ running) × (r.execution_committed ≡ true) × (r.attempt_count ≡ n))
    ⊎ (r.status ≡ succeeded)

IsCommitted-keep : (n : ℕ) (r s : Row) → Evolves r s → IsCommitted n r → IsCommitted n s
IsCommitted-keep n r s (stays e a k) (inl (live, c, m)) = inl (e ∙ live, k.0 c, a ∙ m)
IsCommitted-keep n r s (moves edge a h) (inl (live, c, m)) = inr (h live c)
IsCommitted-keep n r s (starts q u a) (inl (live, c, m)) = absurd (cc)
IsCommitted-keep n r s (stays e a k) (inr won) = inr (e ∙ won)
IsCommitted-keep n r s (moves edge a h) (inr won) =
    absurd (no_edge r.status s.status edge (inl won))
IsCommitted-keep n r s (starts q u a) (inr won) = absurd (cc)

-- The attempt runs with the action requested and no commit, or has ended, or a later one began.
abbrev pub IsRequested : ℕ → RequestedAction → Row → Type 0
IsRequested n a r =
    ((r.status ≡ running)
      × (r.attempt_count ≡ n)
      × (r.requested_action ≡ a)
      × (r.execution_committed ≡ false))
    ⊎ (((is_running r.status ≡ false) × (r.attempt_count ≡ n)) ⊎ (n < r.attempt_count))

edge-idle : (s t : Status) → s ⟶ t → is_running t ≡ false
edge-idle s running m = elim m [ ]
edge-idle s _ m = refl

IsRequested-keep :
    (n : ℕ) (a : RequestedAction)
    → a ≢ no_request
    → (r s : Row) → Evolves r s
    → IsRequested n a r
    → IsRequested n a s
IsRequested-keep n a real r s (stays e m k) (inl (live, at, asked, open_yet)) =
    let (p, q) = k.1 (rw asked (action-no_request a real)) in
    inl (e ∙ live, m ∙ at, p ∙ asked, q ∙ open_yet)
IsRequested-keep n a real r s (moves edge m h) (inl (live, at, asked, open_yet)) =
    inr (inl (edge-idle r.status s.status edge, m ∙ at))
IsRequested-keep n a real r s (starts q u m) (inl (live, at, asked, open_yet)) = absurd (cc)
IsRequested-keep n a real r s (stays e m k) (inr (inl (idle, at))) = inr (inl (rw e idle, m ∙ at))
IsRequested-keep n a real r s (moves edge m h) (inr (inl (idle, at))) =
    inr (inl (edge-idle r.status s.status edge, m ∙ at))
IsRequested-keep n a real r s (starts q u m) (inr (inl (idle, at))) = inr (inr (omega arith))
IsRequested-keep n a real r s (stays e m k) (inr (inr past)) = inr (inr (omega arith))
IsRequested-keep n a real r s (moves edge m h) (inr (inr past)) = inr (inr (omega arith))
IsRequested-keep n a real r s (starts q u m) (inr (inr past)) = inr (inr (omega arith))

module _ (env : Env) where
  IsCommitted-refuses :
      (n : ℕ) (id : String) (a : RequestedAction) (later : ℕ) (db : Db) (row : Row)
      → Inv env db
      → row_at id db ≡ some row
      → IsCommitted n row
      → request_action env id a later db ≡ err task_state_conflict
  IsCommitted-refuses n id a later db row i found h =
      subst (λ k. request_action env k a later db ≡ err task_state_conflict) same_id
        (subst (λ d. Answers env d a later db row (request_action env row.task_id a later db))
          (refuses h)
          (request_action-Answers env a later db row i
            (subst (λ k. row_at k db ≡ some row) (sym same_id) found)))
    where
      same_id : row.task_id ≡ id
      same_id = (str_eq_iff row.task_id id).0 (find-holds (by_id id) db.tasks row found)

      refuses :
          IsCommitted n row
          → decide_action row.status row.execution_committed row.requested_action a ≡ refuse
      refuses (inl (live, c, m)) = unfold decide_action in rw (live, c) refl
      refuses (inr won) = unfold decide_action in rw won refl

  -- A commit that comes first decides for good: it succeeds for a running attempt without a
  -- requested action; and after any further history of transactions every pause or cancel of the
  -- task answers a state conflict, the task has succeeded or still runs that attempt with its result
  -- committed, and in the latter case the attempt ends as succeeded whatever outcome its runner
  -- reports.
  pub commit_decides :
      (now : ℕ) (ref : TaskRef) (ops : List Op) (db : Db) (row : Row)
      → Inv env db
      → find (by_id ref.task_id) db.tasks ≡ some row
      → by_commit ref row ≡ true
      → (db' : Db) × (commit_execution now ref db ≡ ok db')
        × ((a : RequestedAction) (later : ℕ)
            → request_action env ref.task_id a later (run env ops db') ≡ err task_state_conflict)
        × (s : Row) × (row_at ref.task_id (run env ops db') ≡ some s)
        × IsCommitted ref.attempt s
        × ((o : Outcome) (later : ℕ)
            → is_final o.status ≡ true
            → s.status ≡ running
            → (end : Db) × (finalize env later ref o (run env ops db') ≡ ok end)
              × Ends ref.task_id succeeded end)
  commit_decides now ref ops db row i found t =
      let committed = commit_ok now ref db row i.constrained found t in
      let found' =
        find-updated env (by_commit ref) (set_committed now) ref.task_id db.tasks row
          (λ r. unfold set_committed in refl) found t in
      let i' = Ensures-apply {P = Inv env} (commit_execution-Inv env now ref db i) committed in
      let begun : IsCommitted ref.attempt (set_committed now row) =
        unfold set_committed in inl (ground arith, refl, ground arith) in
      let (s, there, stands) =
        run-At env (IsCommitted ref.attempt) (IsCommitted-keep ref.attempt) ref.task_id ops _ _
          found' begun in
      let later_Inv = run-Inv env ops _ i' in
      (
        _,
        committed,
        (λ a later. IsCommitted-refuses ref.attempt ref.task_id a later _ s later_Inv there stands),
        s,
        there,
        stands,
        (λ o later final live. ends o later s later_Inv there stands final live),
      )
    where
      ends :
          (o : Outcome) (later : ℕ) {d : Db} (s : Row)
          → Inv env d
          → row_at ref.task_id d ≡ some s
          → IsCommitted ref.attempt s
          → is_final o.status ≡ true
          → s.status ≡ running
          → (end : Db) × (finalize env later ref o d ≡ ok end) × Ends ref.task_id succeeded end
      ends o later {d = d} s i there (inr won) final live = absurd (cc)
      ends o later {d = d} s i there (inl (running_yet, c, m)) final live =
          finalize_ok env later ref o succeeded d s i there
            (let same_id = find-holds (by_id ref.task_id) d.tasks s there in ground arith) final
            refl (λ q. settle-committed (task_of s q) o c)

  -- A request that comes first decides for good: a pause or cancel of the running attempt, whose
  -- result is not committed and which has no request yet, is recorded; and after any further history
  -- of transactions a commit of that attempt is refused as stale, the attempt has ended or still runs
  -- with the action requested and no commit, and in the latter case it ends as paused or canceled
  -- whatever outcome its runner reports, unless that claims a committed result.
  pub request_decides :
      (a : RequestedAction) (now : ℕ) (ops : List Op) (db : Db) (row : Row)
      → Inv env db
      → find (by_id row.task_id) db.tasks ≡ some row
      → by_open_control row.task_id row ≡ true
      → a ≢ no_request
      → let ref : TaskRef = record { task_id = row.task_id; attempt = row.attempt_count } in
        (db' : Db) × (t : Task) × (request_action env row.task_id a now db
          ≡ ok (db', record { task = t; changed = true }))
        × ((later : ℕ) → commit_execution later ref (run env ops db') ≡ err stale_task_attempt)
        × (s : Row) × (row_at row.task_id (run env ops db') ≡ some s)
        × IsRequested row.attempt_count a s
        × ((o : Outcome) (later : ℕ)
            → is_final o.status ≡ true
            → o.execution_committed ≡ false
            → s.status ≡ running
            → s.attempt_count ≡ row.attempt_count
            → (end : Db) × (finalize env later ref o (run env ops db') ≡ ok end)
              × Ends row.task_id (status_of a) end)
  request_decides a now ops db row i found idle real =
      let (db', t, wrote, found', i') = request_recorded env a now db row i found idle real in
      let begun : IsRequested row.attempt_count a (set_action a now row) =
        unfold set_action in inl (ground arith, refl, refl, ground arith) in
      let (s, there, stands) =
        run-At env (IsRequested row.attempt_count a) (IsRequested-keep row.attempt_count a real)
          row.task_id ops _ _ found' begun in
      let later_Inv = run-Inv env ops _ i' in
      (
        db',
        t,
        wrote,
        (λ later.
            commit_execution-stale later
              (record { task_id = row.task_id; attempt = row.attempt_count }) _ s
              later_Inv.constrained there (refused s stands)),
        s,
        there,
        stands,
        (λ o later final uncommitted live at.
            let (asked, open_yet) = recorded s stands live at in
            requested_end env a (record { task_id = row.task_id; attempt = row.attempt_count }) o
              later _ s real later_Inv there live at asked open_yet final uncommitted),
      )
    where
      refused :
          (s : Row)
          → IsRequested row.attempt_count a s
          → is_running s.status
              && (s.attempt_count == row.attempt_count && is_no_request s.requested_action)
            ≡ false
      refused s (inl (live, at, asked, open_yet)) =
          rw asked (let asks = action-no_request a real in ground arith)
      refused s (inr (inl (ended, at))) = ground arith
      refused s (inr (inr past)) = ground arith

      recorded :
          (s : Row)
          → IsRequested row.attempt_count a s
          → s.status ≡ running
          → s.attempt_count ≡ row.attempt_count
          → (s.requested_action ≡ a) × (s.execution_committed ≡ false)
      recorded s (inl (running_yet, m, asked, open_yet)) live at = (asked, open_yet)
      recorded s (inr (inl (ended, m))) live at = absurd (ground arith)
      recorded s (inr (inr past)) live at = absurd (omega arith)
