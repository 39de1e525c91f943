-- ===== src/Taskstate/Evolution/Forever.antt =====
-- The life of a task over any history of transactions.
use mathlib.Core.Option.{some-injective}
use narou_viewer.Prelude.{
  Ensures, List, Option, Result, String, [], arith, none, refl, some, subst, ℕ, ◌∙◌, ◌∷◌, ◌≡◌, ◌≤◌,
  ◌⊎◌,
}
use narou_viewer.Taskstate.Evolution.Control.{request_action-AllEvolve, request_resume-AllEvolve}
use narou_viewer.Taskstate.Evolution.Operations.{claim_next-AllEvolve, enqueue-AllEvolve}
use narou_viewer.Taskstate.Evolution.Updates.{
  AllEvolve, Always-refl, At, Evolves, Evolves-refl, appears, both, moves, nowhere, row_at, starts,
  stays, ◌⟶◌,
}
use narou_viewer.Taskstate.Evolution.Writes.{
  commit_execution-AllEvolve, finalize-AllEvolve, recover_on_startup-AllEvolve,
  set_work_id-AllEvolve, write-AllEvolve,
}
use narou_viewer.Taskstate.History.{
  Op, after-Ensures, binds, checkpoints, claims, commits, controls, db_of, db_of-Ensures, enqueues,
  fails_at, finalizes, messages, perform, progresses, recovers, resumes, run, saves, step, targets,
  warns,
}
use narou_viewer.Taskstate.Model.{
  Db, Error, Row, Status, canceled, failed, interrupted, paused, queued, running, succeeded,
}
use narou_viewer.Taskstate.Progress.{
  record_checkpoint, set_checkpoint, set_warnings, write_warnings, set_failure_episode,
  set_progress, set_saved_episode_count, set_target, update_message, update_progress,
}
use narou_viewer.Taskstate.Target.{Env}

-- The diagram has no edge out of succeeded and canceled.
pub no_edge : (s t : Status) → s ⟶ t → (s ≡ succeeded) ⊎ (s ≡ canceled) → ⊥
no_edge succeeded t m h = elim m [ ]
no_edge canceled t m h = elim m [ ]
no_edge queued t m h = ground arith
no_edge running t m h = ground arith
no_edge paused t m h = ground arith
no_edge interrupted t m h = ground arith
no_edge failed t m h = ground arith

module _ (env : Env) where
  db_of-Always :
      {A : Type 0} (db : Db) (r : Result Error (Db × A))
      → Ensures (λ e. AllEvolve db e.0) r
      → Ensures (AllEvolve db) (db_of r)
  db_of-Always db r h = db_of-Ensures (AllEvolve db) r h

  perform-AllEvolve : (op : Op) (db : Db) → Ensures (AllEvolve db) (perform env op db)
  unfolding perform
  perform-AllEvolve (enqueues now ts) db = db_of-Always db _ (enqueue-AllEvolve env now ts db)
  perform-AllEvolve (claims now) db = db_of-Always db _ (claim_next-AllEvolve env now db)
  perform-AllEvolve (controls now a id) db =
      db_of-Always db _ (request_action-AllEvolve env id a now db)
  perform-AllEvolve (resumes now id) db = db_of-Always db _ (request_resume-AllEvolve env id now db)
  perform-AllEvolve (progresses now ref p) db =
      unfold update_progress set_progress in
      write-AllEvolve ref _ db (λ r. (refl, refl, refl, refl, refl))
  perform-AllEvolve (messages now ref text) db =
      unfold update_message in write-AllEvolve ref _ db (λ r. (refl, refl, refl, refl, refl))
  perform-AllEvolve (warns now ref texts) db =
      unfold write_warnings set_warnings in
      write-AllEvolve ref _ db (λ r. (refl, refl, refl, refl, refl))
  perform-AllEvolve (checkpoints now ref n next) db =
      unfold record_checkpoint set_checkpoint in
      write-AllEvolve ref _ db (λ r. (refl, refl, refl, refl, refl))
  perform-AllEvolve (targets now ref text) db =
      unfold set_target in write-AllEvolve ref _ db (λ r. (refl, refl, refl, refl, refl))
  perform-AllEvolve (binds now ref work) db = set_work_id-AllEvolve env now ref work db
  perform-AllEvolve (saves now ref n) db =
      unfold set_saved_episode_count in
      write-AllEvolve ref _ db (λ r. (refl, refl, refl, refl, refl))
  perform-AllEvolve (fails_at now ref a b) db =
      unfold set_failure_episode in write-AllEvolve ref _ db (λ r. (refl, refl, refl, refl, refl))
  perform-AllEvolve (commits now ref) db = commit_execution-AllEvolve now ref db
  perform-AllEvolve (finalizes now ref o) db = finalize-AllEvolve env now ref o db
  perform-AllEvolve (recovers now) db = recover_on_startup-AllEvolve env now db

  -- One transaction, whatever the operation and whether it succeeds: each task keeps its
  -- status and attempt number, and a result that is committed or an action that is requested; or
  -- moves along the status diagram within its attempt, to succeeded if it ran with a committed
  -- result; or is claimed from the queue under the next attempt number. Its other columns are free; a task that appears is queued with no attempt, and none disappears.
  pub step-AllEvolve : (op : Op) (db : Db) → AllEvolve db (step env op db)
  unfolding step
  step-AllEvolve op db =
      after-Ensures env (AllEvolve db) db _ (Always-refl Evolves Evolves-refl db)
        (perform-AllEvolve op db)

  -- What an operation keeps of a row that it finds, it keeps over a history.
  pub run-At :
      (P : Row → Type 0)
      → ((r s : Row) → Evolves r s → P r → P s)
      → (id : String) (ops : List Op) (db : Db) (r : Row) → row_at id db ≡ some r
      → P r
      → (s : Row) × (row_at id (run env ops db) ≡ some s) × P s
  unfolding run
  run-At P keep id [] db r e p = (r, e, p)
  run-At P keep id (op ∷ ops) db r e p =
      let (s, e', p') = next (row_at id db) _ (step-AllEvolve op db id) refl e in
      run-At P keep id ops (step env op db) s e' p'
    where
      next :
          (o o' : Option Row)
          → At Evolves o o'
          → row_at id (step env op db) ≡ o'
          → o ≡ some r
          → (s : Row) × (row_at id (step env op db) ≡ some s) × P s
      next (some x) none v h k = elim v [ ]
      next none none nowhere h k = absurd (cc)
      next none (some s) (appears _ _) h k = absurd (cc)
      next (some x) (some s) (both v) h k =
          (s, h, keep r s (subst (λ y. Evolves y s) (some-injective x r k) v) p)

  terminal-keep :
      (x : Status)
      → (x ≡ succeeded) ⊎ (x ≡ canceled)
      → (r s : Row) → Evolves r s
      → r.status ≡ x
      → s.status ≡ x
  terminal-keep x h r s (stays e a k) t = e ∙ t
  terminal-keep x h r s (moves m a k) t = absurd (no_edge r.status s.status m (rw t h))
  terminal-keep x h r s (starts q u a) t = absurd (ground arith)

  -- A succeeded or canceled task has that status for good: no operation, and no history of
  -- operations, leaves it, and the task stays in the table.
  pub terminal_forever :
      (id : String) (x : Status)
      → (x ≡ succeeded) ⊎ (x ≡ canceled)
      → (ops : List Op) (db : Db) (r : Row) → row_at id db ≡ some r
      → r.status ≡ x
      → (s : Row) × (row_at id (run env ops db) ≡ some s) × (s.status ≡ x)
  terminal_forever id x h ops db r e t =
      run-At (λ s. s.status ≡ x) (terminal-keep x h) id ops db r e t

  Evolves-attempts : (n : ℕ) (r s : Row) → Evolves r s → n ≤ r.attempt_count → n ≤ s.attempt_count
  Evolves-attempts n r s (stays e a k) h = omega arith
  Evolves-attempts n r s (moves m a k) h = omega arith
  Evolves-attempts n r s (starts q u a) h = omega arith

  -- Attempt numbers never fall.
  pub attempts_grow :
      (id : String) (ops : List Op) (db : Db) (r : Row)
      → row_at id db ≡ some r
      → (s : Row) × (row_at id (run env ops db) ≡ some s) × (r.attempt_count ≤ s.attempt_count)
  attempts_grow id ops db r e =
      run-At (λ s. r.attempt_count ≤ s.attempt_count) (Evolves-attempts r.attempt_count) id ops db r
        e (omega arith)
