-- ===== src/Taskstate/Schema.antt =====
-- storage/migration/runner.go, persistent_fetch_tasks: the constraints on fetch_tasks and
-- fetch_task_queue, and the statements that the operations run.
use narou_viewer.Prelude.{
  ℤ, pos, is_pos, int_eq, int_le, String, Bool, not, ◌&&◌, ◌||◌, Option, none, some, List, [], ◌∷◌,
  ◌++◌, ◌==◌, if◌then◌else◌, str_eq, any, Result, ok, err, ◌>>=◌, ◌>>◌, fail_if,
}
use narou_viewer.Taskstate.Model.{
  Row, Db, TaskRef, is_running, is_reserved, is_no_request, Constraint, primary_key, check_failed,
  one_running, reserved_dedupe, reserved_work, queue_unique, queue_foreign_key, Error, constraint,
}

-- The CHECK constraints of a row.
unfoldable pub check_row : Row → Bool
check_row r =
    int_le (pos 0) r.current_step
    && (int_le (pos 0) r.total_steps
        && (int_le (pos 0) r.saved_episode_count
            && ((int_eq r.total_steps (pos 0) || int_le r.current_step r.total_steps)
                && (is_running r.status || is_no_request r.requested_action))))

-- Both rows hold a reservation.
abbrev pub both_reserved : Row → Row → Bool
both_reserved r s = is_reserved r.status && is_reserved s.status

-- The unique index that two rows violate together.
unfoldable pub clash : Row → Row → Option Constraint
clash r s =
    if str_eq r.task_id s.task_id
    then some primary_key
    else if is_running r.status && is_running s.status
    then some one_running
    else if both_reserved r s && str_eq r.dedupe_key s.dedupe_key
    then some reserved_dedupe
    else if both_reserved r s
        && (is_pos r.primary_work_id && int_eq r.primary_work_id s.primary_work_id)
    then some reserved_work
    else none

abbrev pub or_else : Option Constraint → Option Constraint → Option Constraint
or_else (some c) o = some c
or_else none o = o

unfoldable pub first_clash : Row → List Row → Option Constraint
first_clash r [] = none
first_clash r (s ∷ rows) = or_else (clash r s) (first_clash r rows)

abbrev pub check_violation : Row → Option Constraint
check_violation r = if check_row r then none else some check_failed

-- The first constraint that a table violates.
unfoldable pub violation : List Row → Option Constraint
violation [] = none
violation (r ∷ rows) = or_else (check_violation r) (or_else (first_clash r rows) (violation rows))

-- A statement that would leave these rows.
unfoldable pub exec : List Row → Result Error (List Row)
exec rows = elim (violation rows) [ none ↦ ok rows | some c ↦ err (constraint c) ]

-- UPDATE fetch_tasks SET f WHERE p
unfoldable pub update_where : (Row → Bool) → (Row → Row) → List Row → List Row
update_where p f [] = []
update_where p f (r ∷ rows) = (if p r then f r else r) ∷ update_where p f rows

unfoldable pub update_tasks : (Row → Bool) → (Row → Row) → Db → Result Error Db
update_tasks p f db = do rows ← exec (update_where p f db.tasks); ok (record db { tasks = rows })

-- INSERT INTO fetch_tasks
unfoldable pub insert_task : Row → Db → Result Error Db
insert_task r db = do rows ← exec (db.tasks ++ r ∷ []); ok (record db { tasks = rows })

abbrev pub by_id : String → Row → Bool
by_id id r = str_eq r.task_id id

-- INSERT INTO fetch_task_queue
unfoldable pub insert_queue : String → Db → Result Error Db
insert_queue id db = do
  fail_if (any (str_eq id) db.queue) (constraint queue_unique)
  fail_if (not (any (by_id id) db.tasks)) (constraint queue_foreign_key)
  ok (record db { queue = db.queue ++ id ∷ [] })

unfoldable pub without : String → List String → List String
without id [] = []
without id (x ∷ xs) = if str_eq id x then without id xs else x ∷ without id xs

-- DELETE FROM fetch_task_queue WHERE task_id = ?
unfoldable pub delete_queue : String → Db → Db
delete_queue id db = record db { queue = without id db.queue }

-- WHERE task_id = ? AND status = 'running' AND attempt_count = ?
abbrev pub by_attempt : TaskRef → Row → Bool
by_attempt ref r =
    str_eq r.task_id ref.task_id && (is_running r.status && r.attempt_count == ref.attempt)

-- SELECT … WHERE dedupe_key = ? AND status IN (reserved)
abbrev pub reserves_key : String → Row → Bool
reserves_key key r = str_eq r.dedupe_key key && is_reserved r.status

-- SELECT … WHERE primary_work_id = ? AND status IN (reserved)
abbrev pub reserves_work : ℤ → Row → Bool
reserves_work work r = int_eq r.primary_work_id work && is_reserved r.status

-- AND task_id != ?
abbrev pub and_other : String → (Row → Bool) → Row → Bool
and_other id p r = not (str_eq r.task_id id) && p r
