-- ===== src/Worker/Signaled.antt =====
-- What a signaled action means for the end of its attempt.
-- The driver lets an attempt through after a finite number of failures.
use narou_viewer.Prelude.{
  ==_iff, Bool-cases, List, Option, String, [], ap, arith, err, false, find, if◌then◌else◌, inl,
  inr, none, ok, refl, some, str_eq_refl, subst, sym, true, ℕ, ◌∙◌, ◌∷◌, ◌≡◌, ◌≢◌, ◌⊎◌,
}
use narou_viewer.Taskqueue.Queue.{
  Queue, TaskError, cancel_task, committed, finish_task, outcome_of, pause_task,
  set_outcome_from_error, wake_if_changed,
}
use narou_viewer.Taskstate.Behaviour.Control.{Answers, request_action-Answers}
use narou_viewer.Taskstate.Behaviour.Ending.{Ends, finalize_ok}
use narou_viewer.Taskstate.Behaviour.Race.{
  action-no_request, request_recorded, requested_end, status_of,
}
use narou_viewer.Taskstate.Control.{decide_action, refuse, request_action, set_action, unchanged}
use narou_viewer.Taskstate.Evolution.Writes.{settle-committed}
use narou_viewer.Taskstate.Finalize.{finalize, is_final}
use narou_viewer.Taskstate.Invariant.{Inv}
use narou_viewer.Taskstate.Model.{
  ControlResult, Db, Error, RequestedAction, Row, Status, Task, TaskRef, cancel, no_request, pause,
  running, succeeded, task_state_conflict,
}
use narou_viewer.Taskstate.Scan.{task_of}
use narou_viewer.Taskstate.Schema.{by_attempt, by_id}
use narou_viewer.Taskstate.Target.{Env}
use narou_viewer.Worker.Finalizing.{
  Attempt, Persisted, answers_at, conclude, driver_fails, gave_up, is_retryable, persist_loop,
  ref_of, signaled_error, stored,
}
use narou_viewer.Worker.Runner.{Runner, persist_control}

pub data Reaches : List Attempt → ℕ → Type 0 where
  reached : {now : ℕ} {more : List Attempt} → Reaches (answers_at now ∷ more) now
  again : {now : ℕ} {more : List Attempt} → Reaches more now → Reaches (driver_fails ∷ more) now

abbrev pub row_ref : Row → TaskRef
row_ref row = record { task_id = row.task_id; attempt = row.attempt_count }

module _ (env : Env) where
  persist_loop-stored :
      (id : String) (a : RequestedAction) (attempts : List Attempt) (now : ℕ) (q q' : Queue)
      (r : ControlResult)
      → Reaches attempts now
      → persist_control env id a now q ≡ (q', ok r)
      → persist_loop env id a attempts q ≡ (q', stored)
  unfolding persist_loop
  persist_loop-stored id a (answers_at _ ∷ more) now q q' r reached e = rw e refl
  persist_loop-stored id a (driver_fails ∷ more) now q q' r (again h) e =
      persist_loop-stored id a more now q q' r h e
  persist_loop-stored id a [] now q q' r h e = elim h [ ]

  persist_loop-gave_up :
      (id : String) (a : RequestedAction) (attempts : List Attempt) (now : ℕ) (q : Queue)
      (x : Error)
      → Reaches attempts now
      → persist_control env id a now q ≡ (q, err x)
      → is_retryable x ≡ false
      → persist_loop env id a attempts q ≡ (q, gave_up x)
  unfolding persist_loop
  persist_loop-gave_up id a (answers_at _ ∷ more) now q x reached e f = rw e (rw f refl)
  persist_loop-gave_up id a (driver_fails ∷ more) now q x (again h) e f =
      persist_loop-gave_up id a more now q x h e f
  persist_loop-gave_up id a [] now q x h e f = elim h [ ]

  persist_control-action :
      (id : String) (a : RequestedAction) (now : ℕ) (q : Queue)
      → a ≢ no_request
      → persist_control env id a now q
        ≡ wake_if_changed (committed q (request_action env id a now q.db))
  unfolding persist_control pause_task cancel_task
  persist_control-action id pause now q real = refl
  persist_control-action id cancel now q real = refl
  persist_control-action id no_request now q real = absurd (real refl)

  conclude-signaled :
      (describe : Error → String) (t : Task) (attempts : List Attempt) (ended : TaskError)
      (parent executor_err : Option TaskError) (later : ℕ) (r : Runner) (q : Queue)
      → r.task_ref ≡ ref_of t
      → r.task_action ≢ no_request
      → (q' : Queue) (how : Persisted) → persist_loop env t.id r.task_action attempts q ≡ (q', how)
      → conclude env describe t attempts ended parent executor_err later r q
        ≡ finalize env later
            (ref_of t)
            (outcome_of t (signaled_error describe how r.task_action ended))
            q'.db
  unfolding conclude finish_task
  conclude-signaled describe t attempts ended parent executor_err later r q same real q' how e =
      rw
        (
          same,
          str_eq_refl,
          (==_iff t.attempt_count t.attempt_count).1 refl,
          action-no_request r.task_action real,
        )
        (rw e refl)

  -- The action is recorded already, or still free to be.
  decide-recorded :
      (s : Status) (b a : RequestedAction)
      → s ≡ running
      → b ≡ a
      → a ≢ no_request
      → decide_action s false b a ≡ unchanged
  unfolding decide_action
  decide-recorded s b pause e h real = rw (e, h) refl
  decide-recorded s b cancel e h real = rw (e, h) refl
  decide-recorded s b no_request e h real = absurd (real refl)

  outcome-signaled :
      (t : Task) (describe : Error → String) (a : RequestedAction) (ended : TaskError)
      → a ≢ no_request
      → is_final (outcome_of t (signaled_error describe stored a ended)).status ≡ true
  unfolding outcome_of set_outcome_from_error
  outcome-signaled t describe pause ended real = refl
  outcome-signaled t describe cancel ended real = refl
  outcome-signaled t describe no_request ended real = absurd (real refl)

  outcome-committed :
      (t : Task) (e : Option TaskError)
      → (outcome_of t e).execution_committed ≡ t.execution_committed
  unfolding outcome_of set_outcome_from_error
  outcome-committed t none = refl
  outcome-committed t (some e) = ground arith

  -- How an attempt with a signaled action ends.
  abbrev Concluded :
      (Error → String)
      → Task
      → List Attempt
      → TaskError
      → ℕ
      → RequestedAction
      → Queue
      → Row
      → Status
      → Type 0
  Concluded describe t attempts ended later a q row s =
      (q' : Queue) × (how : Persisted) × (persist_loop env row.task_id a attempts q ≡ (q', how))
      × ((db' : Db) × (finalize env later (row_ref row)
              (outcome_of t (signaled_error describe how a ended)) q'.db
            ≡ ok db')
          × Ends row.task_id s db')

  live-attempt : (row : Row) → row.status ≡ running → by_attempt (row_ref row) row ≡ true
  live-attempt row live = ground (arith, str_eq_refl row.task_id)

  module _ (describe : Error → String) (t : Task) (attempts : List Attempt) (ended : TaskError)
      (later now : ℕ) (a : RequestedAction) (q : Queue) (row : Row) (i : Inv env q.db)
      (found : find (by_id row.task_id) q.db.tasks ≡ some row) (live : row.status ≡ running)
      (real : a ≢ no_request) (reaches : Reaches attempts now)
      (uncommitted : t.execution_committed ≡ false) where
    signaled-sealed :
        row.execution_committed ≡ true → Concluded describe t attempts ended later a q row succeeded
    signaled-sealed sealed = (
      q,
      gave_up task_state_conflict,
      persist_loop-gave_up row.task_id a attempts now q task_state_conflict reaches
          (persist_control-action row.task_id a now q real
            ∙ ap (λ x. wake_if_changed (committed q x)) refused)
          (unfold is_retryable in refl),
      finalize_ok env later (row_ref row)
          (outcome_of t (signaled_error describe (gave_up task_state_conflict) a ended)) succeeded
          q.db row i found (live-attempt row live)
          (unfold outcome_of set_outcome_from_error in refl) refl
          (λ x. settle-committed (task_of row x) _ sealed),
    )
      where
        refuses : decide_action row.status row.execution_committed row.requested_action a ≡ refuse
        refuses = unfold decide_action in rw (live, sealed) refl

        refused : request_action env row.task_id a now q.db ≡ err task_state_conflict
        refused =
            subst (λ d. Answers env d a now q.db row (request_action env row.task_id a now q.db))
              refuses (request_action-Answers env a now q.db row i found)

    signaled-free :
        row.execution_committed ≡ false
        → row.requested_action ≡ no_request
        → Concluded describe t attempts ended later a q row (status_of a)
    signaled-free unsealed idle =
        let (db', t', wrote, found', i') =
          request_recorded env a now q.db row i found (ground (arith, str_eq_refl row.task_id))
            real in
        (
          record { db = db'; wake = true },
          stored,
          persist_loop-stored row.task_id a attempts now q _ (record { task = t'; changed = true })
              reaches
              (persist_control-action row.task_id a now q real
                ∙ ap (λ x. wake_if_changed (committed q x)) wrote),
          requested_end env a (row_ref row) (outcome_of t (signaled_error describe stored a ended))
              later db' (set_action a now row) real i' found' (unfold set_action in live)
              (unfold set_action in refl) (unfold set_action in refl)
              (unfold set_action in unsealed) (outcome-signaled t describe a ended real)
              (outcome-committed t (signaled_error describe stored a ended) ∙ uncommitted),
        )

    signaled-recorded :
        row.execution_committed ≡ false
        → row.requested_action ≡ a
        → Concluded describe t attempts ended later a q row (status_of a)
    signaled-recorded unsealed same =
        let (request, kept_as) = answered in
        (
          q,
          stored,
          persist_loop-stored row.task_id a attempts now q q
              (record { task = task_of row request; changed = false }) reaches
              (persist_control-action row.task_id a now q real
                ∙ ap (λ x. wake_if_changed (committed q x)) kept_as),
          requested_end env a (row_ref row) (outcome_of t (signaled_error describe stored a ended))
              later q.db row real i found live refl same unsealed
              (outcome-signaled t describe a ended real)
              (outcome-committed t (signaled_error describe stored a ended) ∙ uncommitted),
        )
      where
        stays : decide_action row.status row.execution_committed row.requested_action a ≡ unchanged
        stays =
            ap (λ c. decide_action row.status c row.requested_action a) unsealed
            ∙ decide-recorded row.status row.requested_action a live same real

        answered : Answers env unchanged a now q.db row (request_action env row.task_id a now q.db)
        answered =
            subst (λ d. Answers env d a now q.db row (request_action env row.task_id a now q.db))
              stays (request_action-Answers env a now q.db row i found)

    signaled_end :
        (row.requested_action ≡ no_request) ⊎ (row.requested_action ≡ a)
        → Concluded describe t attempts ended later a q row
            (if row.execution_committed then succeeded else status_of a)
    signaled_end free = elim (Bool-cases row.execution_committed) [
      | inl sealed ↦ rw sealed (signaled-sealed sealed)
      | inr unsealed ↦ elim free [
        | inl idle ↦ rw unsealed (signaled-free unsealed idle)
        | inr same ↦ rw unsealed (signaled-recorded unsealed same)
      ]
    ]

  -- A pause or cancel that was signaled to the running task decides its end. The runner has recorded
  -- the action for the attempt, the row has it already or has none, and the driver lets the runner
  -- persist it after finitely many failures. Then finalization succeeds, whatever the executor
  -- returned: the task ends as succeeded if its result was committed before, and otherwise as paused
  -- or canceled, as the action asks.
  pub conclude-signaled_end :
      (describe : Error → String) (t : Task) (attempts : List Attempt) (ended : TaskError)
      (parent executor_err : Option TaskError) (later now : ℕ) (r : Runner) (q : Queue) (row : Row)
      → Inv env q.db
      → find (by_id row.task_id) q.db.tasks ≡ some row
      → row.status ≡ running
      → ref_of t ≡ row_ref row
      → r.task_ref ≡ ref_of t
      → r.task_action ≢ no_request
      → (row.requested_action ≡ no_request) ⊎ (row.requested_action ≡ r.task_action)
      → Reaches attempts now
      → t.execution_committed ≡ false
      → (db' : Db) × (conclude env describe t attempts ended parent executor_err later r q ≡ ok db')
        × Ends row.task_id
            (if row.execution_committed then succeeded else status_of r.task_action)
            db'
  conclude-signaled_end describe t attempts ended parent executor_err later now r q row i found live
        same_t same_r real free reaches uncommitted =
      let (q', how, looped, (db', finalized, ends)) =
        signaled_end describe t attempts ended later now r.task_action q row i found live real
          reaches uncommitted free in
      (
        db',
        conclude-signaled describe t attempts ended parent executor_err later r q same_r real q' how
              (subst (λ ref. persist_loop env ref.task_id r.task_action attempts q ≡ (q', how))
                (sym same_t) looped)
            ∙ (ap
                  (λ ref.
                    finalize env later ref
                      (outcome_of t (signaled_error describe how r.task_action ended)) q'.db)
                  same_t
                ∙ finalized),
        ends,
      )
