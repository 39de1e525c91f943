-- ===== src/Worker/Wakeup.antt =====
-- The wake-ups of the runner.
use narou_viewer.Prelude.{
  All, All-find, All-mono, Bool, Ensures, Ensures-apply, Ensures-bind, Ensures-guard,
  Ensures-or_fail, List, Option, String, [], any, ap, arith, count, done, false, find,
  if◌then◌else◌, inl, inr, is_pos, is_some, none, not, raised, refl, some, sym, true, ℕ, ◌<◌, ◌∙◌,
  ◌∷◌, ◌≡◌, ◌≢◌, ◌≤◌, ◌⊎◌,
}
use narou_viewer.Taskqueue.Queue.{finish_task}
use narou_viewer.Taskstate.Behaviour.Reading.{queue-head}
use narou_viewer.Taskstate.Behaviour.Recover.{count-none, find-own-All, queue-agrees}
use narou_viewer.Taskstate.Claim.{by_queued_id, claim, claim_head, claim_next, start}
use narou_viewer.Taskstate.Control.{
  changed_result, request_resume, requeue, required, resume_error, resume_from, set_queued,
}
use narou_viewer.Taskstate.History.{perform-Inv}
use narou_viewer.Taskstate.Invariant.{Inv}
use narou_viewer.Taskstate.Keeps.Control.{request_action-Inv, request_resume-Inv}
use narou_viewer.Taskstate.Keeps.Empty.{Quiet, perform-Quiet, request_action-Quiet}
use narou_viewer.Taskstate.Keeps.Endings.{finalize-Inv}
use narou_viewer.Taskstate.Keeps.Enqueue.{claim_next-Inv, enqueue-Inv}
use narou_viewer.Taskstate.Model.{
  ControlResult, Db, Row, Status, Task, canceled, failed, interrupted, is_queued, paused, queued,
  running, succeeded,
}
use narou_viewer.Taskstate.Progress.{has_queued_tasks, is_queued_row}
use narou_viewer.Taskstate.Scan.{get_tx}
use narou_viewer.Taskstate.Schema.{
  and_other, by_id, delete_queue, insert_queue, reserves_key, reserves_work, update_tasks,
}
use narou_viewer.Taskstate.Target.{Env}
use narou_viewer.Worker.Loop.{
  Reachable, Step, System, check_failed_once, checked_empty, checked_queued, claimed, claimed_none,
  controlled, enqueued, finalized, if_changed, next_of, notified, reported, resumed, shut_down,
  sleeping, start_of, started, woken,
}

count-zero-All : (p : Row → Bool) (rows : List Row) → count p rows ≡ 0 → All (λ r. p r ≡ false) rows
unfolding count
count-zero-All p [] e = tt
count-zero-All p (r ∷ rows) e = (ground arith, count-zero-All p rows (ground arith))

not_empty-queue : (id : String) (rest : List String) → (id ∷ rest) ≢ []
not_empty-queue id rest e = cc

module _ (env : Env) where
  -- No queued task, no queue row, and the other way round.
  none_queued-queue : (db : Db) → Inv env db → has_queued_tasks db ≡ false → db.queue ≡ []
  unfolding has_queued_tasks
  none_queued-queue db i h = go db.queue refl
    where
      none_waiting : All (λ r. is_queued r.status ≡ false) db.tasks
      none_waiting = count-zero-All is_queued_row db.tasks (ground arith)

      go : (xs : List String) → db.queue ≡ xs → db.queue ≡ []
      go [] e = e
      go (id ∷ rest) e =
          let (row, found, waiting, kept_queue) = queue-head env db id rest i e in
          absurd (
            ground (
              arith,
              All-find (λ r. is_queued r.status ≡ false) (by_id id) db.tasks row none_waiting found,
            ))

  empty-none_queued : (db : Db) → Inv env db → db.queue ≡ [] → has_queued_tasks db ≡ false
  unfolding has_queued_tasks
  empty-none_queued db i e = ground (
    arith,
    count-none is_queued_row db.tasks
        (All-mono _ _ idle db.tasks (find-own-All db.tasks i.constrained)),
  )
    where
      idle : (r : Row) → find (by_id r.task_id) db.tasks ≡ some r → is_queued_row r ≡ false
      idle r found = sym (queue-agrees env db r i found) ∙ (unfold any in rw e refl)

  -- The queue of a claim that finds no task.
  abbrev NoneEmpty : Db × Option Task → Type 0
  NoneEmpty x = x.1 ≡ none → x.0.queue ≡ []

  claim-NoneEmpty : (id : String) (now : ℕ) (db : Db) → Ensures NoneEmpty (claim env id now db)
  unfolding claim
  claim-NoneEmpty id now db = Ensures-or_fail (find (by_id id) db.tasks) _ _ λ row found.
      Ensures-guard (not (is_queued row.status)) _ _ λ waiting.
        Ensures-bind (update_tasks (by_queued_id id) (start now) db) _ λ begun e.
          Ensures-bind (get_tx env id (delete_queue id begun)) _
            λ o got. Ensures-or_fail o _ _ λ task some_task. done (λ h. absurd (cc))

  claim_next-NoneEmpty : (now : ℕ) (db : Db) → Ensures NoneEmpty (claim_next env now db)
  unfolding claim_next claim_head
  claim_next-NoneEmpty now db = go db.queue refl
    where
      go : (xs : List String) → db.queue ≡ xs → Ensures NoneEmpty (claim_head env xs now db)
      go [] e = done (λ h. e)
      go (id ∷ rest) e = claim-NoneEmpty id now db

  -- A resume that changes nothing leaves the tables alone.
  abbrev Unchanged : Db → Db × ControlResult → Type 0
  Unchanged db x = x.1.changed ≡ false → x.0 ≡ db

  changed_result-Unchanged :
      (id : String) (db db' : Db) → Ensures (Unchanged db) (changed_result env id db')
  unfolding changed_result
  changed_result-Unchanged id db db' =
      Ensures-bind (required env id db') _ λ t e. done (λ h. absurd (cc))

  requeue-Unchanged :
      (id : String) (now : ℕ) (t : Task) (db : Db)
      → Ensures (Unchanged db) (requeue env id now t db)
  unfolding requeue
  requeue-Unchanged id now t db =
      Ensures-guard (is_some (find (and_other id (reserves_key t.dedupe_key)) db.tasks)) _ _ λ free.
        Ensures-guard
          (if is_pos t.work_id
            then is_some (find (and_other id (reserves_work t.work_id)) db.tasks)
            else false)
          _ _
          λ free_work.
            Ensures-bind (resume_error (update_tasks (by_id id) (set_queued now) db)) _ λ db' e.
              Ensures-bind (insert_queue id db') _
                λ queued_db e'. changed_result-Unchanged id db queued_db

  resume_from-Unchanged :
      (s : Status) (id : String) (now : ℕ) (t : Task) (db : Db)
      → Ensures (Unchanged db) (resume_from env s id now t db)
  unfolding resume_from
  resume_from-Unchanged queued id now t db = done (λ h. refl)
  resume_from-Unchanged running id now t db = done (λ h. refl)
  resume_from-Unchanged canceled id now t db = raised
  resume_from-Unchanged succeeded id now t db = raised
  resume_from-Unchanged paused id now t db = requeue-Unchanged id now t db
  resume_from-Unchanged interrupted id now t db = requeue-Unchanged id now t db
  resume_from-Unchanged failed id now t db = requeue-Unchanged id now t db

  request_resume-Unchanged :
      (id : String) (now : ℕ) (db : Db) → Ensures (Unchanged db) (request_resume env id now db)
  unfolding request_resume
  request_resume-Unchanged id now db =
      Ensures-bind (required env id db) _ λ t e. resume_from-Unchanged t.status id now t db

  -- A sleeping runner has nothing to do, or a wake-up is in the channel or due.
  record Awake (s : System) : Type 0 where
    kept_Inv : Inv env s.db
    due : s.mode ≡ sleeping → (s.db.queue ≡ []) ⊎ ((s.wake ≡ true) ⊎ (0 < s.notifying))

  started-Awake : (db : Db) → Inv env db → Awake (started db)
  unfolding started
  started-Awake db i = record { kept_Inv = i; due = λ h. inr (inr (omega arith)) }

  -- A step that leaves an empty queue empty and takes no notification away.
  Quiet-Awake :
      (s : System) (db' : Db) (n : ℕ)
      → Inv env db'
      → Quiet s.db db'
      → s.notifying ≤ n
      → Awake s
      → Awake (record s { db = db'; notifying = n })
  Quiet-Awake s db' n i q more a = record {
    kept_Inv = i;
    due = λ h. elim (a.due h) [
      | inl e ↦ inl (q e)
      | inr (inl w) ↦ inr (inl w)
      | inr (inr d) ↦ inr (inr (omega arith))
    ];
  }

  if_changed-more : (b : Bool) (n : ℕ) → n ≤ if_changed b n
  if_changed-more true n = omega arith
  if_changed-more false n = omega arith

  resumed-Awake :
      (s : System) (db' : Db) (b : Bool)
      → Inv env db'
      → (b ≡ false → db' ≡ s.db)
      → Awake s
      → Awake (record s { db = db'; notifying = if_changed b s.notifying })
  resumed-Awake s db' true i same a = record { kept_Inv = i; due = λ h. inr (inr (omega arith)) }
  resumed-Awake s db' false i same a =
      Quiet-Awake s db' s.notifying i (λ e. ap (λ x. x.queue) (same refl) ∙ e) (omega arith) a

  Step-Awake : (s s' : System) → Step env s s' → Awake s → Awake s'
  unfolding finish_task
  Step-Awake s _ (enqueued now ts db' r e) a = record {
    kept_Inv = Ensures-apply {P = λ x. Inv env x.0} (enqueue-Inv env _ _ s.db a.kept_Inv) e;
    due = λ h. inr (inr (omega arith));
  }
  Step-Awake s _ (resumed now id db' r e) a =
      resumed-Awake s _ r.changed
        (Ensures-apply {P = λ x. Inv env x.0} (request_resume-Inv env _ _ s.db a.kept_Inv) e)
        (Ensures-apply {P = Unchanged s.db} (request_resume-Unchanged _ _ s.db) e) a
  Step-Awake s _ (controlled now id b db' r e) a =
      Quiet-Awake s _ _
        (Ensures-apply {P = λ x. Inv env x.0} (request_action-Inv env _ _ _ s.db a.kept_Inv) e)
        (Ensures-apply {P = λ x. Quiet s.db x.0} (request_action-Quiet env _ _ _ s.db) e)
        (if_changed-more r.changed s.notifying) a
  Step-Awake s _ (reported op db' q e) a =
      Quiet-Awake s _ s.notifying
        (Ensures-apply {P = Inv env} (perform-Inv env op s.db a.kept_Inv) e)
        (Ensures-apply {P = Quiet s.db} (perform-Quiet env op s.db q) e) (omega arith) a
  Step-Awake s _ (notified n e) a = record { kept_Inv = a.kept_Inv; due = λ h. inr (inl refl) }
  Step-Awake s _ (woken m w) a = record { kept_Inv = a.kept_Inv; due = λ h. absurd (cc) }
  Step-Awake s _ (claimed_none now db' m e) a = record {
    kept_Inv = Ensures-apply {P = λ x. Inv env x.0} (claim_next-Inv env _ s.db a.kept_Inv) e;
    due = λ h. inl (Ensures-apply {P = NoneEmpty} (claim_next-NoneEmpty _ s.db) e refl);
  }
  Step-Awake s _ (claimed now db' t m e) a = record {
    kept_Inv = Ensures-apply {P = λ x. Inv env x.0} (claim_next-Inv env _ s.db a.kept_Inv) e;
    due = λ h. absurd (cc);
  }
  Step-Awake s _ (finalized now t x db' m e) a = record {
    kept_Inv = Ensures-apply {P = Inv env} (finalize-Inv env _ _ _ s.db a.kept_Inv) e;
    due = λ h. absurd (cc);
  }
  Step-Awake s _ (checked_queued m e) a = record { kept_Inv = a.kept_Inv; due = λ h. absurd (cc) }
  Step-Awake s _ (checked_empty m e) a = record {
    kept_Inv = a.kept_Inv;
    due = λ h. inl (none_queued-queue s.db a.kept_Inv e);
  }
  Step-Awake s _ (check_failed_once m) a = record { kept_Inv = a.kept_Inv; due = λ h. absurd (cc) }
  Step-Awake s _ shut_down a = record { kept_Inv = a.kept_Inv; due = λ h. absurd (cc) }

  Reachable-Awake : (db : Db) (s : System) → Inv env db → Reachable env db s → Awake s
  Reachable-Awake db _ i start_of = started-Awake db i
  Reachable-Awake db s' i (next_of {s = s} r m) = Step-Awake s s' m (Reachable-Awake db s i r)

  -- No wake-up is lost. In every order of the steps of clients and runner, from the start of the
  -- runner on tables that meet the invariant: where the runner sleeps while a task is queued, the
  -- wake-up signal is in the channel, or a call of Notify is due that will put it there.
  pub sleeping-notified :
      (db : Db) (s : System)
      → Inv env db
      → Reachable env db s
      → s.mode ≡ sleeping
      → has_queued_tasks s.db ≡ true
      → (s.wake ≡ true) ⊎ (0 < s.notifying)
  sleeping-notified db s i r m h =
      let a = Reachable-Awake db s i r in
      elim (a.due m) [
        | inl e ↦ absurd (clash_tests (empty-none_queued s.db a.kept_Inv e) h)
        | inr d ↦ d
      ]
    where
      clash_tests : {b : Bool} → b ≡ false → b ≡ true → ⊥
      clash_tests f t = cc
