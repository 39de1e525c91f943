-- ===== src/Taskstate/Behaviour/Fence.antt =====
-- The fences of a running attempt: its commit, its requested action and its attempt number.
use narou_viewer.Prelude.{
  Bool, List, ap, arith, count, err, false, find, if◌then◌else◌, none, not, ok, refl, some, subst,
  sym, true, ℕ, ◌&&◌, ◌<◌, ◌==◌, ◌∙◌, ◌≡◌,
}
use narou_viewer.Taskstate.Behaviour.Reading.{get_tx_ok, Readable-row}
use narou_viewer.Taskstate.Behaviour.Writing.{update_where-none}
use narou_viewer.Taskstate.Commit.{by_commit, commit_execution, set_committed}
use narou_viewer.Taskstate.Evolution.Forever.{attempts_grow}
use narou_viewer.Taskstate.Finalize.{finalize, is_final}
use narou_viewer.Taskstate.History.{Op, run, run-Inv}
use narou_viewer.Taskstate.Invariant.{Inv}
use narou_viewer.Taskstate.Model.{
  Db, Outcome, Row, TaskRef, is_no_request, is_running, stale_task_attempt,
}
use narou_viewer.Taskstate.Progress.{current_attempt, update_attempt}
use narou_viewer.Taskstate.Reads.{count-by_id_and}
use narou_viewer.Taskstate.Schema.{by_attempt, by_id, update_tasks, update_where, violation}
use narou_viewer.Taskstate.Tables.{update_tasks_ok}
use narou_viewer.Taskstate.Target.{Env}

attempt-unmatched :
    (ref : TaskRef) (q : Row → Bool) (rows : List Row) (row : Row)
    → violation rows ≡ none
    → find (by_id ref.task_id) rows ≡ some row
    → q row ≡ false
    → count (λ r. by_id ref.task_id r && q r) rows ≡ 0
attempt-unmatched ref q rows row v found h =
    count-by_id_and ref.task_id q rows row v found ∙ ap (λ x. if x then 1 else 0) h

update-unmatched :
    (p : Row → Bool) (f : Row → Row) (db : Db)
    → violation db.tasks ≡ none
    → count p db.tasks ≡ 0
    → update_tasks p f db ≡ ok db
update-unmatched p f db v z =
    update_tasks_ok p f db (subst (λ x. violation x ≡ none) (sym same) v)
    ∙ ap (λ x. ok (record db { tasks = x })) same
  where
    same : update_where p f db.tasks ≡ db.tasks
    same = update_where-none p f db.tasks z

-- A write by an attempt that is not the running one answers the error of a stale attempt.
pub update_attempt-stale :
    (ref : TaskRef) (f : Row → Row) (db : Db) (row : Row)
    → violation db.tasks ≡ none
    → find (by_id ref.task_id) db.tasks ≡ some row
    → is_running row.status && row.attempt_count == ref.attempt ≡ false
    → update_attempt ref f db ≡ err stale_task_attempt
unfolding update_attempt
update_attempt-stale ref f db row v found h =
    let z =
      attempt-unmatched ref (λ r. is_running r.status && r.attempt_count == ref.attempt) db.tasks
        row v found h in
    rw (update-unmatched (by_attempt ref) f db v z) (rw z refl)

pub commit_execution-stale :
    (now : ℕ) (ref : TaskRef) (db : Db) (row : Row)
    → violation db.tasks ≡ none
    → find (by_id ref.task_id) db.tasks ≡ some row
    → is_running row.status
        && (row.attempt_count == ref.attempt && is_no_request row.requested_action)
      ≡ false
    → commit_execution now ref db ≡ err stale_task_attempt
unfolding commit_execution
commit_execution-stale now ref db row v found h =
    let z =
      attempt-unmatched ref
        (λ r.
          is_running r.status
          && (r.attempt_count == ref.attempt && is_no_request r.requested_action))
        db.tasks row v found h in
    rw (update-unmatched (by_commit ref) (set_committed now) db v z) (rw z refl)

current_attempt-stale :
    (env : Env) (ref : TaskRef) (db : Db) (row : Row)
    → Inv env db
    → find (by_id ref.task_id) db.tasks ≡ some row
    → is_running row.status && row.attempt_count == ref.attempt ≡ false
    → current_attempt env ref db ≡ err stale_task_attempt
unfolding current_attempt
current_attempt-stale env ref db row i found h =
    rw (get_tx_ok env ref.task_id db row (Readable-row env i ref.task_id row found) found)
      (rw stale refl)
  where
    stale : not (row.attempt_count == ref.attempt && is_running row.status) ≡ true
    stale = ground arith

pub finalize-stale :
    (env : Env) (now : ℕ) (ref : TaskRef) (o : Outcome) (db : Db) (row : Row)
    → Inv env db
    → find (by_id ref.task_id) db.tasks ≡ some row
    → is_running row.status && row.attempt_count == ref.attempt ≡ false
    → is_final o.status ≡ true
    → finalize env now ref o db ≡ err stale_task_attempt
unfolding finalize
finalize-stale env now ref o db row i found h final =
    rw final (rw (current_attempt-stale env ref db row i found h) refl)

-- Once a task has reached an attempt, every earlier attempt of it is fenced off for good: after any
-- history of transactions, a write, a commit or an outcome under an earlier attempt number answers
-- the error of a stale attempt.
pub earlier_attempts-stale :
    (env : Env) (ref : TaskRef) (ops : List Op) (db : Db) (row : Row)
    → Inv env db
    → find (by_id ref.task_id) db.tasks ≡ some row
    → ref.attempt < row.attempt_count
    → ((f : Row → Row) → update_attempt ref f (run env ops db) ≡ err stale_task_attempt)
      × ((now : ℕ) → commit_execution now ref (run env ops db) ≡ err stale_task_attempt)
      × ((now : ℕ) (o : Outcome)
          → is_final o.status ≡ true
          → finalize env now ref o (run env ops db) ≡ err stale_task_attempt)
earlier_attempts-stale env ref ops db row i found earlier =
    let (s, found', grown) = attempts_grow env ref.task_id ops db row found in
    let i' = run-Inv env ops db i in
    (
      (λ f. update_attempt-stale ref f (run env ops db) s i'.constrained found' (ground arith)),
      (λ now.
          commit_execution-stale now ref (run env ops db) s i'.constrained found' (ground arith)),
      (λ now o final.
          finalize-stale env now ref o (run env ops db) s i' found' (ground arith) final),
    )
