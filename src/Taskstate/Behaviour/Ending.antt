-- ===== src/Taskstate/Behaviour/Ending.antt =====
-- Finalize of the running attempt, and what a commit and a requested action decide about it.
use narou_viewer.Prelude.{
  String, arith, count, false, find, none, not, ok, refl, some, true, ℕ, ◌&&◌, ◌==◌, ◌∙◌, ◌≡◌,
}
use narou_viewer.Taskstate.Behaviour.Reading.{find-updated, get_tx_ok, Readable-row}
use narou_viewer.Taskstate.Behaviour.Writing.{violation-update_row}
use narou_viewer.Taskstate.Commit.{by_commit, commit_execution, set_committed}
use narou_viewer.Taskstate.Constraints.{Weaker}
use narou_viewer.Taskstate.Finalize.{finalize, is_final, set_outcome, settle, write_outcome}
use narou_viewer.Taskstate.Invariant.{Inv, Readable}
use narou_viewer.Taskstate.Model.{
  Db, Outcome, Request, Row, Status, TaskRef, is_no_request, is_running,
}
use narou_viewer.Taskstate.Progress.{current_attempt, update_attempt}
use narou_viewer.Taskstate.Reads.{count-by_id_and}
use narou_viewer.Taskstate.Scan.{task_of}
use narou_viewer.Taskstate.Schema.{by_attempt, by_id, check_row, update_where, violation}
use narou_viewer.Taskstate.Tables.{update_tasks_ok}
use narou_viewer.Taskstate.Target.{Env}

-- The row of an id has a status.
abbrev pub Ends : String → Status → Db → Type 0
Ends id s db = (r : Row) × (find (by_id id) db.tasks ≡ some r) × (r.status ≡ s)

set_outcome-Weaker :
    (now : ℕ) (s : Status) (o : Outcome) (r : Row)
    → is_running r.status ≡ true
    → is_final (some s) ≡ true
    → Weaker r (set_outcome now s o r)
unfolding set_outcome
set_outcome-Weaker now s o r t final = record {
  same_id = refl;
  same_key = refl;
  same_work = refl;
  runs_less = λ h. t;
  reserves_less = λ h. ground arith;
}

set_outcome-check :
    (now : ℕ) (s : Status) (o : Outcome) (r : Row)
    → check_row r ≡ true
    → check_row (set_outcome now s o r) ≡ true
unfolding check_row set_outcome
set_outcome-check now s o r h = ground arith

set_committed-Weaker : (now : ℕ) (r : Row) → Weaker r (set_committed now r)
unfolding set_committed
set_committed-Weaker now r = record {
  same_id = refl;
  same_key = refl;
  same_work = refl;
  runs_less = λ h. h;
  reserves_less = λ h. h;
}

set_committed-check :
    (now : ℕ) (r : Row) → check_row r ≡ true → check_row (set_committed now r) ≡ true
unfolding check_row set_committed
set_committed-check now r h = h

-- A write of the running attempt succeeds.
pub update_attempt_ok :
    (ref : TaskRef) (f : Row → Row) (db : Db) (row : Row)
    → violation db.tasks ≡ none
    → find (by_id ref.task_id) db.tasks ≡ some row
    → by_attempt ref row ≡ true
    → Weaker row (f row)
    → (check_row row ≡ true → check_row (f row) ≡ true)
    → update_attempt ref f db ≡ ok (record db { tasks = update_where (by_attempt ref) f db.tasks })
unfolding update_attempt
update_attempt_ok ref f db row v found t w c =
    rw
      (update_tasks_ok (by_attempt ref) f db (
        violation-update_row (by_attempt ref) f ref.task_id db.tasks row (λ r h. ground arith) found
          w c v))
      (rw one refl)
  where
    one : count (by_attempt ref) db.tasks ≡ 1
    one =
        count-by_id_and ref.task_id (λ r. is_running r.status && r.attempt_count == ref.attempt)
          db.tasks row v found
        ∙ ground arith

pub commit_ok :
    (now : ℕ) (ref : TaskRef) (db : Db) (row : Row)
    → violation db.tasks ≡ none
    → find (by_id ref.task_id) db.tasks ≡ some row
    → by_commit ref row ≡ true
    → commit_execution now ref db
      ≡ ok (record db { tasks = update_where (by_commit ref) (set_committed now) db.tasks })
unfolding commit_execution
commit_ok now ref db row v found t =
    rw
      (update_tasks_ok (by_commit ref) (set_committed now) db (
        violation-update_row (by_commit ref) (set_committed now) ref.task_id db.tasks row
          (λ r h. ground arith) found (set_committed-Weaker now row) (set_committed-check now row)
          v))
      (rw one refl)
  where
    one : count (by_commit ref) db.tasks ≡ 1
    one =
        count-by_id_and ref.task_id
          (λ r.
            is_running r.status
            && (r.attempt_count == ref.attempt && is_no_request r.requested_action))
          db.tasks row v found
        ∙ ground arith

module _ (env : Env) where
  current_attempt_ok :
      (ref : TaskRef) (db : Db) (row : Row) (h : Readable env row)
      → find (by_id ref.task_id) db.tasks ≡ some row
      → by_attempt ref row ≡ true
      → current_attempt env ref db ≡ ok (task_of row h.request)
  unfolding current_attempt
  current_attempt_ok ref db row h found t =
      rw (get_tx_ok env ref.task_id db row h found) (rw live refl)
    where
      live : not (row.attempt_count == ref.attempt && is_running row.status) ≡ false
      live = ground arith

  -- Finalize of the running attempt under a final outcome always succeeds, and the row takes the
  -- status of the settled outcome.
  pub finalize_ok :
      (now : ℕ) (ref : TaskRef) (o : Outcome) (s : Status) (db : Db) (row : Row)
      → (i : Inv env db) → (found : find (by_id ref.task_id) db.tasks ≡ some row)
      → by_attempt ref row ≡ true
      → is_final o.status ≡ true
      → is_final (some s) ≡ true
      → ((q : Request) → (settle (task_of row q) o).status ≡ some s)
      → (db' : Db) × (finalize env now ref o db ≡ ok db') × Ends ref.task_id s db'
  unfolding finalize write_outcome settle
  finalize_ok now ref o s db row i found t final final_s settled =
      let h = Readable-row env i ref.task_id row found in
      let u = settle (task_of row h.request) o in
      (
        record db { tasks = update_where (by_attempt ref) (set_outcome now s u) db.tasks },
        rw final (
            rw (current_attempt_ok ref db row h found t) (
              rw (settled h.request) (
                update_attempt_ok ref (set_outcome now s u) db row i.constrained found t
                  (set_outcome-Weaker now s u row (ground arith) final_s)
                  (set_outcome-check now s u row)))),
        (
          set_outcome now s u row,
          find-updated env (by_attempt ref) (set_outcome now s u) ref.task_id db.tasks row
              (λ r. unfold set_outcome in refl) found t,
          unfold set_outcome in refl,
        ),
      )
