-- ===== src/Extraction/Lives.antt =====
-- extraction/job_store.go: sequences of controls of jobs.
use narou_viewer.Extraction.Controls.{JobAction, control_job, finalize_pausing_job}
use narou_viewer.Extraction.Directory.{Distinct, write-Distinct}
use narou_viewer.Extraction.Files.{Store, document_file}
use narou_viewer.Extraction.Jobs.{Job, job_document, job_schema_version}
use narou_viewer.Extraction.Keeps.{control_job-keeps, finalize_pausing_job-keeps}
use narou_viewer.Extraction.OneActive.{save_index_of-jobs}
use narou_viewer.Extraction.Saving.{
  load_or_rebuild_job_index, may_save, save_job, save_job_index, write_job,
}
use narou_viewer.Extraction.Transitions.{
  Later, control_job-Later, finalize-Later, moves_on, unchanged_yet,
}
use narou_viewer.Extraction.View.{Viewed, view}
use narou_viewer.Prelude.{List, Result-cases, String, [], inl, inr, some, ◌∷◌}

pub data ControlOp : Type 0 where
  controls : String → String → JobAction → String → ControlOp
  finalizes : String → String → ControlOp

unfoldable pub perform_control : ControlOp → Store → Store
perform_control (controls novel id action now) s = (control_job novel id action now s).0
perform_control (finalizes novel id) s = (finalize_pausing_job novel id s).0

unfoldable pub run_controls : List ControlOp → Store → Store
unfolding perform_control
run_controls [] s = s
run_controls (op ∷ ops) s = run_controls ops (perform_control op s)

Later-trans : {u v w : Viewed} → Later u v → Later v w → Later u w
Later-trans h unchanged_yet = h
Later-trans h (moves_on move k) = moves_on move (Later-trans h k)

abbrev HasDistinct : Store → Type 0
HasDistinct s = Distinct s.jobs

save_job-Distinct :
    (novel : String) (job : Job) (s : Store) → HasDistinct s → HasDistinct (save_job novel job s).0
unfolding save_job save_job_index
save_job-Distinct novel job s h = elim (Result-cases (may_save novel job s)) [
  | inl (u, e) ↦
      rw
        (
          e,
          save_index_of-jobs novel job (write_job novel job s)
              (load_or_rebuild_job_index novel (write_job novel job s)),
        )
        (write-Distinct job.job_id
          (document_file (some job_schema_version) novel (job_document novel job)) s.jobs h)
  | inr (why, e) ↦ rw e h
]

perform-Distinct : (op : ControlOp) (s : Store) → HasDistinct s → HasDistinct (perform_control op s)
unfolding perform_control
perform-Distinct (controls novel id action now) s h =
    control_job-keeps HasDistinct save_job-Distinct novel id action now s h
perform-Distinct (finalizes novel id) s h =
    finalize_pausing_job-keeps HasDistinct save_job-Distinct novel id s h

perform-Later :
    (op : ControlOp) (s : Store) (id : String)
    → HasDistinct s
    → Later (view s id) (view (perform_control op s) id)
unfolding perform_control
perform-Later (controls novel job_id action now) s id h =
    control_job-Later novel job_id action now s id h
perform-Later (finalizes novel job_id) s id h = finalize-Later novel job_id s id h

-- A directory of job documents under any sequence of pauses, cancels, resumes and finished pauses,
-- failed ones included, refines a state machine for each job: what a job's document says later on
-- is reached by the transitions of that machine (a queued job is paused at once, a running one by
-- way of pausing; active and halted jobs are canceled; halted ones are queued again), the job keeps
-- its novel, and documents neither appear nor vanish. The files have different names.
pub run_controls-Later :
    (ops : List ControlOp) (s : Store) (id : String)
    → Distinct s.jobs
    → Later (view s id) (view (run_controls ops s) id)
unfolding run_controls
run_controls-Later [] s id h = unchanged_yet
run_controls-Later (op ∷ ops) s id h =
    Later-trans (perform-Later op s id h)
      (run_controls-Later ops (perform_control op s) id (perform-Distinct op s h))
