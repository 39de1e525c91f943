-- ===== src/Taskstate/Keeps/Writes.antt =====
-- taskstate/sqlite.go, the writes of a running attempt: the invariant of the tables.
use narou_viewer.Prelude.{
  All-zip, Bool-cases, Ensures, Ensures-guard, Ensures-if, Ensures-then, List, String, ap, arith,
  count, done, false, find, inl, inr, int_eq, is_pos, is_some, not, ok, pos, refl, some, sym, true,
  ℕ, ℤ, ◌==◌, ◌∙◌, ◌≡◌,
}
use narou_viewer.Taskstate.Claim.{by_queued_id}
use narou_viewer.Taskstate.Invariant.{Inv, Readable}
use narou_viewer.Taskstate.Keeps.Enqueue.{request_for_task_lem}
use narou_viewer.Taskstate.Model.{Db, Request, Row, Task, TaskProgress, TaskRef, is_queued}
use narou_viewer.Taskstate.Progress.{
  record_checkpoint, write_warnings, bind_work, current_attempt, set_failure_episode, set_progress,
  set_saved_episode_count, set_target, set_work, set_work_id, update_attempt, update_message,
  update_progress,
}
use narou_viewer.Taskstate.Reads.{RowOf, current_attempt_lem, only-row}
use narou_viewer.Taskstate.Request.{request_for_task, request_of, validate_request}
use narou_viewer.Taskstate.Schema.{and_other, by_attempt, by_id, reserves_work, update_tasks}
use narou_viewer.Taskstate.Tables.{All-update_where, count-update_where, update_tasks_lem, updated}
use narou_viewer.Taskstate.Target.{Env}
use narou_viewer.Taskstate.Updates.{Inv-update}

-- An update of running rows that keeps the id, and leaves no row queued, moves no row into or out
-- of the queue.
attempt-moves :
    (ref : TaskRef) (f : Row → Row)
    → ((r : Row) → by_attempt ref r ≡ true → is_queued (f r).status ≡ false)
    → (j : String) (r : Row) → by_queued_id j (updated (by_attempt ref) f r) ≡ by_queued_id j r
attempt-moves ref f h j r = elim (Bool-cases (by_attempt ref r)) [
  | inl t ↦ rw t (ground (arith, h r t))
  | inr e ↦ rw e refl
]

running-not_queued :
    (ref : TaskRef) (r : Row) → by_attempt ref r ≡ true → is_queued r.status ≡ false
running-not_queued ref r h = ground arith

module _ (env : Env) where
  pub update_attempt-Inv :
      (ref : TaskRef) (f : Row → Row) (db : Db)
      → ((r : Row) → by_attempt ref r ≡ true → is_queued (f r).status ≡ false)
      → ((r : Row) → by_attempt ref r ≡ true → Readable env r → Readable env (f r))
      → Inv env db
      → Ensures (Inv env) (update_attempt ref f db)
  unfolding update_attempt
  update_attempt-Inv ref f db q h i =
      Ensures-then (update_tasks (by_attempt ref) f db) _ (update_tasks_lem (by_attempt ref) f db)
        λ db' (e, v).
          Ensures-guard (not (count (by_attempt ref) db.tasks == 1)) _ _
            λ one. done (rw e (Inv-update env (by_attempt ref) f h db (attempt-moves ref f q) v i))

  pub update_progress-Inv :
      (now : ℕ) (ref : TaskRef) (p : TaskProgress) (db : Db)
      → Inv env db
      → Ensures (Inv env) (update_progress now ref p db)
  unfolding update_progress
  update_progress-Inv now ref p db i =
      update_attempt-Inv ref (set_progress now p) db (running-not_queued ref) (λ r _ h. h) i

  pub update_message-Inv :
      (now : ℕ) (ref : TaskRef) (text : String) (db : Db)
      → Inv env db
      → Ensures (Inv env) (update_message now ref text db)
  unfolding update_message
  update_message-Inv now ref text db i =
      update_attempt-Inv ref _ db (running-not_queued ref) (λ r _ h. h) i

  pub set_target-Inv :
      (now : ℕ) (ref : TaskRef) (text : String) (db : Db)
      → Inv env db
      → Ensures (Inv env) (set_target now ref text db)
  unfolding set_target
  set_target-Inv now ref text db i =
      update_attempt-Inv ref _ db (running-not_queued ref) (λ r _ h. h) i

  pub set_saved_episode_count-Inv :
      (now : ℕ) (ref : TaskRef) (n : ℤ) (db : Db)
      → Inv env db
      → Ensures (Inv env) (set_saved_episode_count now ref n db)
  unfolding set_saved_episode_count
  set_saved_episode_count-Inv now ref n db i =
      update_attempt-Inv ref _ db (running-not_queued ref) (λ r _ h. h) i

  pub set_failure_episode-Inv :
      (now : ℕ) (ref : TaskRef) (a b : String) (db : Db)
      → Inv env db
      → Ensures (Inv env) (set_failure_episode now ref a b db)
  unfolding set_failure_episode
  set_failure_episode-Inv now ref a b db i =
      update_attempt-Inv ref _ db (running-not_queued ref) (λ r _ h. h) i

  pub write_warnings-Inv :
      (now : ℕ) (ref : TaskRef) (texts : List String) (db : Db)
      → Inv env db
      → Ensures (Inv env) (write_warnings now ref texts db)
  unfolding write_warnings
  write_warnings-Inv now ref texts db i =
      update_attempt-Inv ref _ db (running-not_queued ref) (λ r _ h. h) i

  pub record_checkpoint-Inv :
      (now : ℕ) (ref : TaskRef) (n : ℤ) (next : String) (db : Db)
      → Inv env db
      → Ensures (Inv env) (record_checkpoint now ref n next db)
  unfolding record_checkpoint
  record_checkpoint-Inv now ref n next db i =
      update_attempt-Inv ref _ db (running-not_queued ref) (λ r _ h. h) i

  -- An update of the one row with the id that a reference names.
  update_found-Inv :
      (ref : TaskRef) (f : Row → Row) (db : Db) (row : Row)
      → find (by_id ref.task_id) db.tasks ≡ some row
      → ((r : Row) → by_attempt ref r ≡ true → is_queued (f r).status ≡ false)
      → (Readable env row → Readable env (f row))
      → Inv env db
      → Ensures (Inv env) (update_attempt ref f db)
  unfolding update_attempt
  update_found-Inv ref f db row found q h i =
      Ensures-then (update_tasks (by_attempt ref) f db) _ (update_tasks_lem (by_attempt ref) f db)
        λ db' (e, v). Ensures-guard (not (count (by_attempt ref) db.tasks == 1)) _ _ λ one. done (
          rw e (record {
            constrained = v;
            queue_matches = λ j.
                i.queue_matches j
                ∙ sym (
                    count-update_where (by_attempt ref) f (by_queued_id j) (attempt-moves ref f q j)
                      db.tasks);
            readable =
                All-update_where (by_attempt ref) f OnlyReadable (Readable env) keep db.tasks (
                  All-zip _ _ db.tasks i.readable
                    (only-row ref.task_id db.tasks row i.constrained found));
          }))
    where
      OnlyReadable : Row → Type 0
      OnlyReadable r = Readable env r × (by_id ref.task_id r ≡ true → r ≡ row)

      keep : (r : Row) → OnlyReadable r → Readable env (updated (by_attempt ref) f r)
      keep r (h', only) = elim (Bool-cases (by_attempt ref r)) [
        | inl t ↦ rw t (let same : r ≡ row = only (ground arith) in rw same (h (rw same at h')))
        | inr e ↦ rw e h'
      ]

  set_work-Readable :
      (now : ℕ) (ref : TaskRef) (work : ℤ) (t : Task) (db : Db) (row : RowOf ref.task_id db t)
      (key fp : String)
      → validate_request env (request_of env (record t { work_id = work })) ≡ ok key
      → fp ≡ env.digest t.kind key work (request_of env (record t { work_id = work })).options
      → Readable env row.row
      → Readable env
          (set_work now work (request_of env (record t { work_id = work })) key fp row.row)
  unfolding set_work
  set_work-Readable now ref work t db row key fp valid digest h = record {
    request = request_of env (record t { work_id = work });
    is_encoded = refl;
    is_current = h.is_current;
    same_kind = ap (λ x. x.kind) row.read;
    same_work = refl;
    valid_key = valid;
    fingerprint = digest;
  }

  set_work-not_queued :
      (now : ℕ) (ref : TaskRef) (work : ℤ) (q : Request) (key fp : String) (r : Row)
      → by_attempt ref r ≡ true
      → is_queued (set_work now work q key fp r).status ≡ false
  unfolding set_work
  set_work-not_queued now ref work q key fp r h = running-not_queued ref r h

  bind_work-Inv :
      (now : ℕ) (ref : TaskRef) (work : ℤ) (t : Task) (db : Db)
      → RowOf ref.task_id db t
      → Inv env db
      → Ensures (Inv env) (bind_work env now ref work t db)
  unfolding bind_work
  bind_work-Inv now ref work t db row i =
      Ensures-guard (not (int_eq t.work_id (pos 0))) _ _ λ unbound.
        Ensures-guard (is_some (find (and_other ref.task_id (reserves_work work)) db.tasks)) _ _
          λ free.
            Ensures-then (request_for_task env (record t { work_id = work })) _
              (request_for_task_lem env (record t { work_id = work }))
              λ x (e, valid, digest). rw e (
                update_found-Inv ref
                  (set_work now work (request_of env (record t { work_id = work })) x.1 x.2) db
                  row.row row.found
                  (set_work-not_queued now ref work (request_of env (record t { work_id = work }))
                    x.1 x.2)
                  (set_work-Readable now ref work t db row x.1 x.2 valid digest) i)

  pub set_work_id-Inv :
      (now : ℕ) (ref : TaskRef) (work : ℤ) (db : Db)
      → Inv env db
      → Ensures (Inv env) (set_work_id env now ref work db)
  unfolding set_work_id
  set_work_id-Inv now ref work db i = Ensures-guard (not (is_pos work)) _ _ λ positive.
      Ensures-then (current_attempt env ref db) _ (current_attempt_lem env ref db) λ t a.
        Ensures-if (int_eq t.work_id work) _ _ (λ _. done i)
          (λ _. bind_work-Inv now ref work t db a.of_row i)
