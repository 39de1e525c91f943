-- ===== src/Taskstate/Behaviour/Resume.antt =====
-- RequestResume on the row of a stored task.
use narou_viewer.Prelude.{
  All, Bool-cases, List, Option, Option-cases, Result, [], any, any-find, any-of_count, ap, arith,
  err, false, find, if◌then◌else◌, inl, inr, is_pos, is_some, none, ok, refl, some, str_eq,
  str_eq_comm, str_eq_refl, sym, true, ℕ, ◌++◌, ◌∙◌, ◌∷◌, ◌≡◌,
}
use narou_viewer.Taskstate.Behaviour.Control.{changed_result_ok}
use narou_viewer.Taskstate.Behaviour.Enqueue.{insert_queue_ok}
use narou_viewer.Taskstate.Behaviour.Reading.{find-updated, Readable-row, required_ok}
use narou_viewer.Taskstate.Behaviour.Reservations.{FreeKey, FreeWork, held-key, held-work}
use narou_viewer.Taskstate.Constraints.{Around, violation-resume}
use narou_viewer.Taskstate.Control.{
  changed_result, request_resume, requeue, resume_error, resume_from, set_queued,
}
use narou_viewer.Taskstate.Invariant.{Inv, Readable}
use narou_viewer.Taskstate.Keeps.Control.{set_queued-Readable}
use narou_viewer.Taskstate.Model.{
  ControlResult, Db, Error, Request, Row, Status, canceled, failed, interrupted, is_queued, paused,
  queued, running, succeeded, task_already_active, task_state_conflict,
}
use narou_viewer.Taskstate.Reads.{count-by_id_and, only-row}
use narou_viewer.Taskstate.Scan.{task_of}
use narou_viewer.Taskstate.Schema.{
  and_other, by_id, insert_queue, reserves_key, reserves_work, update_where, violation,
}
use narou_viewer.Taskstate.Tables.{update_tasks_ok}
use narou_viewer.Taskstate.Target.{Env}

Around-All :
    (row : Row) (rows : List Row)
    → All (λ r. by_id row.task_id r ≡ true → r ≡ row) rows
    → find (and_other row.task_id (reserves_key row.dedupe_key)) rows ≡ none
    → (is_pos row.primary_work_id ≡ true
        → find (and_other row.task_id (reserves_work row.primary_work_id)) rows ≡ none)
    → All (Around row) rows
unfolding find
Around-All row [] only k w = tt
Around-All row (r ∷ rows) only k w = (
  (
    only.0,
    λ other. record {
      other_id = ground (arith, str_eq_comm row.task_id r.task_id);
      free_key = ground arith;
      free_work = λ p. ground (arith, w p);
    },
  ),
  Around-All row rows only.1 (ground arith) (λ p. ground (arith, w p)),
)

is_some-none : {A : Type 0} (o : Option A) → o ≡ none → is_some o ≡ false
is_some-none o e = rw e refl

module _ (env : Env) where
  -- The row that a resumed task has afterwards, and where the queue holds it.
  abbrev pub Resumed : ℕ → Db → Row → Result Error (Db × ControlResult) → Type 0
  Resumed now db row r =
      (q : Request) × (r
        ≡ ok (
          record {
            tasks = update_where (by_id row.task_id) (set_queued now) db.tasks;
            queue = db.queue ++ row.task_id ∷ [];
          },
          record { task = task_of (set_queued now row) q; changed = true },
        ))

  requeue-ok :
      (now : ℕ) (db : Db) (row : Row) (q : Request)
      → Inv env db
      → find (by_id row.task_id) db.tasks ≡ some row
      → q.work_id ≡ row.primary_work_id
      → is_queued row.status ≡ false
      → FreeKey row db
      → FreeWork row db
      → Resumed now db row (requeue env row.task_id now (task_of row q) db)
  unfolding requeue resume_error
  requeue-ok now db row q i found work idle key free = (
    h.request,
    rw (is_some-none _ key) (
        rw no_work (
          rw (update_tasks_ok (by_id row.task_id) (set_queued now) db kept) (rw queued_last read))),
  )
    where
      h : Readable env (set_queued now row)
      h = set_queued-Readable env now row (Readable-row env i row.task_id row found)

      db' : Db
      db' = record db { tasks = update_where (by_id row.task_id) (set_queued now) db.tasks }

      no_work :
          (if is_pos q.work_id
            then is_some (find (and_other row.task_id (reserves_work q.work_id)) db.tasks)
            else false)
          ≡ false
      no_work = rw work (elim (Bool-cases (is_pos row.primary_work_id)) [
        | inl p ↦ rw (p, free p) refl
        | inr n ↦ rw n refl
      ])

      kept : violation (update_where (by_id row.task_id) (set_queued now) db.tasks) ≡ none
      kept =
          violation-resume now row db.tasks
            (Around-All row db.tasks (only-row row.task_id db.tasks row i.constrained found) key
              free)
            i.constrained

      found' : find (by_id row.task_id) db'.tasks ≡ some (set_queued now row)
      found' =
          find-updated env (by_id row.task_id) (set_queued now) row.task_id db.tasks row
            (λ r. unfold set_queued in refl) found (str_eq_refl row.task_id)

      not_queued : any (str_eq row.task_id) db.queue ≡ false
      not_queued = any-of_count (str_eq row.task_id) db.queue (
          i.queue_matches row.task_id
          ∙ (count-by_id_and row.task_id (λ s. is_queued s.status) db.tasks row i.constrained found
              ∙ ap (λ x. if x then 1 else 0) idle))

      queued_last :
          insert_queue row.task_id db' ≡ ok (record db' { queue = db.queue ++ row.task_id ∷ [] })
      queued_last =
          insert_queue_ok row.task_id db' not_queued
            (rw (any-find (by_id row.task_id) db'.tasks, found') refl)

      read :
          changed_result env row.task_id (record db' { queue = db.queue ++ row.task_id ∷ [] })
          ≡ ok (
            record db' { queue = db.queue ++ row.task_id ∷ [] },
            record { task = task_of (set_queued now row) h.request; changed = true },
          )
      read =
          changed_result_ok env row.task_id (record db' { queue = db.queue ++ row.task_id ∷ [] })
            (set_queued now row) h found'

  -- What RequestResume answers, by the status of the row.
  abbrev pub ResumeAnswers : Status → ℕ → Db → Row → Result Error (Db × ControlResult) → Type 0
  ResumeAnswers queued now db row r =
      (q : Request) × (r ≡ ok (db, record { task = task_of row q; changed = false }))
  ResumeAnswers running now db row r =
      (q : Request) × (r ≡ ok (db, record { task = task_of row q; changed = false }))
  ResumeAnswers canceled now db row r = r ≡ err task_state_conflict
  ResumeAnswers succeeded now db row r = r ≡ err task_state_conflict
  ResumeAnswers paused now db row r = Resumed now db row r
  ResumeAnswers interrupted now db row r = Resumed now db row r
  ResumeAnswers failed now db row r =
      (FreeKey row db → FreeWork row db → Resumed now db row r)
      × ((s : Row)
          → find (and_other row.task_id (reserves_key row.dedupe_key)) db.tasks ≡ some s
          → r ≡ err task_already_active)
      × ((s : Row)
          → is_pos row.primary_work_id ≡ true
          → find (and_other row.task_id (reserves_work row.primary_work_id)) db.tasks ≡ some s
          → r ≡ err task_already_active)

  requeue-taken :
      (now : ℕ) (db : Db) (row s : Row) (q : Request)
      → find (and_other row.task_id (reserves_key row.dedupe_key)) db.tasks ≡ some s
      → requeue env row.task_id now (task_of row q) db ≡ err task_already_active
  unfolding requeue
  requeue-taken now db row s q taken = rw taken refl

  requeue-work_taken :
      (now : ℕ) (db : Db) (row s : Row) (q : Request)
      → q.work_id ≡ row.primary_work_id
      → is_pos row.primary_work_id ≡ true
      → find (and_other row.task_id (reserves_work row.primary_work_id)) db.tasks ≡ some s
      → requeue env row.task_id now (task_of row q) db ≡ err task_already_active
  unfolding requeue
  requeue-work_taken now db row s q work p taken =
      elim (Option-cases (find (and_other row.task_id (reserves_key row.dedupe_key)) db.tasks)) [
        | inl none_key ↦ rw (none_key, work, p, taken) refl
        | inr (x, e) ↦ rw e refl
      ]

  resume_from-answers :
      (s : Status) (now : ℕ) (db : Db) (row : Row) (q : Request)
      → Inv env db
      → find (by_id row.task_id) db.tasks ≡ some row
      → q.work_id ≡ row.primary_work_id
      → row.status ≡ s
      → ResumeAnswers s now db row (resume_from env s row.task_id now (task_of row q) db)
  unfolding resume_from
  resume_from-answers queued now db row q i found work e = (q, refl)
  resume_from-answers running now db row q i found work e = (q, refl)
  resume_from-answers canceled now db row q i found work e = refl
  resume_from-answers succeeded now db row q i found work e = refl
  resume_from-answers paused now db row q i found work e =
      requeue-ok now db row q i found work (rw e refl)
        (held-key row db i.constrained found (rw e refl))
        (held-work row db i.constrained found (rw e refl))
  resume_from-answers interrupted now db row q i found work e =
      requeue-ok now db row q i found work (rw e refl)
        (held-key row db i.constrained found (rw e refl))
        (held-work row db i.constrained found (rw e refl))
  resume_from-answers failed now db row q i found work e = (
    (λ key free. requeue-ok now db row q i found work (rw e refl) key free),
    (λ s taken. requeue-taken now db row s q taken),
    λ s p taken. requeue-work_taken now db row s q work p taken,
  )

  -- RequestResume of a stored task, on tables that meet the invariant: a queued or running task
  -- stays as it is; a canceled or succeeded one answers a state conflict; a paused or interrupted
  -- one always goes back to the end of the queue, as its resources are still its own; a failed one
  -- goes back if no other task has reserved its key or its work, and else answers that the resource
  -- is already active.
  pub request_resume-answers :
      (now : ℕ) (db : Db) (row : Row)
      → Inv env db
      → find (by_id row.task_id) db.tasks ≡ some row
      → ResumeAnswers row.status now db row (request_resume env row.task_id now db)
  unfolding request_resume
  request_resume-answers now db row i found =
      let h = Readable-row env i row.task_id row found in
      rw (required_ok env row.task_id db row h found)
        (resume_from-answers row.status now db row h.request i found (sym h.same_work) refl)
