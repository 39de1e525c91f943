-- ===== src/Extraction/Recovered.antt =====
-- extraction/job_store.go: the documents after RecoverRunningJobs.
use narou_viewer.Extraction.Controls.{answer_with}
use narou_viewer.Extraction.Files.{Store, read_job_document}
use narou_viewer.Extraction.Jobs.{Job, JobWithNovel}
use narou_viewer.Extraction.Keeps.{answer_with-keeps, then_with-keeps}
use narou_viewer.Extraction.Reading.{load_for_execution}
use narou_viewer.Extraction.Recovery.{
  CheckpointRead, checkpoint_of, fail_stop_job, good_checkpoint, incompatible_checkpoint,
  interrupted_job, no_checkpoint, quarantine, recover_all, recover_one, recover_read,
  recover_running_jobs, then_with, unread_checkpoint, was_running,
}
use narou_viewer.Extraction.Saving.{Stored, may_save, save_job}
use narou_viewer.Extraction.View.{Viewed, view, view-save_job}
use narou_viewer.Prelude.{
  All, Bool, Bool-cases, List, Result-cases, String, [], ap, arith, err, false, inl, inr, is_ok,
  none, ok, refl, some, str_eq, str_eq_refl, subst, true, ℕ, ◌&&◌, ◌∙◌, ◌∷◌, ◌≡◌,
}

-- The document is current, and its job neither runs nor is about to pause.
abbrev pub Halted : Viewed → Type 0
Halted none = ⊥
Halted (some (novel, status)) = was_running status ≡ false

save_job-ok :
    (novel : String) (job : Job) (s s' : Store)
    → save_job novel job s ≡ (s', ok tt)
    → is_ok (may_save novel job s) ≡ true
unfolding save_job
save_job-ok novel job s s' h = elim (Result-cases (may_save novel job s)) [
  | inl (u, e) ↦ rw e refl
  | inr (why, e) ↦ absurd (ground arith)
]

-- A successful save of a job that does not run.
saved-Halted :
    (novel : String) (job : Job) (s s' : Store)
    → was_running job.status ≡ false
    → save_job novel job s ≡ (s', ok tt)
    → Halted (view s' job.job_id)
saved-Halted novel job s s' idle h =
    let store : (save_job novel job s).0 ≡ s' = ap (λ o. o.0) h in
    rw
      (
        ← store,
        view-save_job novel job s job.job_id,
        save_job-ok novel job s s' h,
        str_eq_refl job.job_id,
      )
      idle

-- A save of a job that does not run, seen at any id.
save-keeps_Halted :
    (novel : String) (job : Job) (id : String)
    → was_running job.status ≡ false
    → (s : Store) → Halted (view s id)
    → Halted (view (save_job novel job s).0 id)
save-keeps_Halted novel job id idle s h =
    rw (view-save_job novel job s id)
      (elim (Bool-cases (is_ok (may_save novel job s) && str_eq job.job_id id)) [
        | inl t ↦ rw t idle
        | inr f ↦ rw f h
      ])

answer_with-ok :
    {A : Type 0} (a b : A) (o : Stored (Unit {0})) (s : Store)
    → answer_with a o ≡ (s, ok b)
    → o ≡ (s, ok tt)
answer_with-ok a b (t, ok u) s h = ap (λ (x : Stored _). (x.0, ok tt)) h
answer_with-ok a b (t, err e) s h = absurd (ground arith)

then_with-ok :
    {A B : Type 0} (o : Stored A) (next : A → Store → Stored B) (s : Store) (b : B)
    → then_with o next ≡ (s, ok b)
    → (a : A) × (o ≡ (o.0, ok a)) × (next a o.0 ≡ (s, ok b))
then_with-ok (t, ok a) next s b h = (a, refl, h)
then_with-ok (t, err e) next s b h = absurd (ground arith)

module _ (checkpoint_name : String → String → String) (moves : String → Bool) where
  quarantine-view :
      (name : String) (s : Store) (id : String)
      → view (quarantine checkpoint_name moves name s).0 id ≡ view s id
  unfolding view read_job_document
  quarantine-view name s id = elim (Bool-cases (moves name)) [
    | inl t ↦ rw t refl
    | inr f ↦ rw f refl
  ]

  recover_read-keeps_Halted :
      (novel : String) (job : Job) (s : Store) (c : CheckpointRead) (id : String)
      → Halted (view s id)
      → Halted (view (recover_read checkpoint_name moves novel job s c).0 id)
  unfolding interrupted_job fail_stop_job
  recover_read-keeps_Halted novel job s no_checkpoint id h =
      answer_with-keeps (λ t. Halted (view t id)) 1 (save_job novel (interrupted_job job) s)
        (save-keeps_Halted novel (interrupted_job job) id refl s h)
  recover_read-keeps_Halted novel job s good_checkpoint id h =
      answer_with-keeps (λ t. Halted (view t id)) 1 (save_job novel (interrupted_job job) s)
        (save-keeps_Halted novel (interrupted_job job) id refl s h)
  recover_read-keeps_Halted novel job s unread_checkpoint id h = h
  recover_read-keeps_Halted novel job s incompatible_checkpoint id h =
      then_with-keeps (λ t. Halted (view t id)) (save_job novel (fail_stop_job job) s) _
        (save-keeps_Halted novel (fail_stop_job job) id refl s h)
        λ u t k.
          answer_with-keeps (λ t'. Halted (view t' id)) 0
            (quarantine checkpoint_name moves (checkpoint_of checkpoint_name moves novel job) t)
            (rw (quarantine-view (checkpoint_of checkpoint_name moves novel job) t id) k)

  recover_read-Halted :
      (novel : String) (job : Job) (s s' : Store) (c : CheckpointRead) (n : ℕ)
      → recover_read checkpoint_name moves novel job s c ≡ (s', ok n)
      → Halted (view s' job.job_id)
  unfolding interrupted_job fail_stop_job
  recover_read-Halted novel job s s' no_checkpoint n h =
      saved-Halted novel (interrupted_job job) s s' refl
        (answer_with-ok 1 n (save_job novel (interrupted_job job) s) s' h)
  recover_read-Halted novel job s s' good_checkpoint n h =
      saved-Halted novel (interrupted_job job) s s' refl
        (answer_with-ok 1 n (save_job novel (interrupted_job job) s) s' h)
  recover_read-Halted novel job s s' unread_checkpoint n h = absurd (ground arith)
  recover_read-Halted novel job s s' incompatible_checkpoint n h =
      let name = checkpoint_of checkpoint_name moves novel job in
      let saved = save_job novel (fail_stop_job job) s in
      let (u, finished, rest) =
        then_with-ok saved (λ _ t. answer_with 0 (quarantine checkpoint_name moves name t)) s' n
          h in
      let store : (quarantine checkpoint_name moves name saved.0).0 ≡ s' =
        ap (λ (o : Stored (Unit {0})). o.0)
          (answer_with-ok 0 n (quarantine checkpoint_name moves name saved.0) s' rest) in
      rw (← store, quarantine-view name saved.0 job.job_id)
        (saved-Halted novel (fail_stop_job job) s saved.0 refl finished)

  abbrev HaltedIn : Store → JobWithNovel → Type 0
  HaltedIn s r = was_running r.job.status ≡ true → Halted (view s r.job.job_id)

  recover_one-keeps_Halted :
      (r : JobWithNovel) (s : Store) (id : String)
      → Halted (view s id)
      → Halted (view (recover_one checkpoint_name moves r s).0 id)
  unfolding recover_one
  recover_one-keeps_Halted r s id h = elim (Bool-cases (was_running r.job.status)) [
    | inl t ↦ rw t (recover_read-keeps_Halted r.novel_id r.job s _ id h)
    | inr f ↦ rw f h
  ]

  recover_one-Halted :
      (r : JobWithNovel) (s s' : Store) (n : ℕ)
      → recover_one checkpoint_name moves r s ≡ (s', ok n)
      → HaltedIn s' r
  unfolding recover_one
  recover_one-Halted r s s' n h t = recover_read-Halted r.novel_id r.job s s' _ n (rw t at h)

  recover_all-keeps_Halted :
      (rs : List JobWithNovel) (s : Store) (id : String)
      → Halted (view s id)
      → Halted (view (recover_all checkpoint_name moves rs s).0 id)
  unfolding recover_all
  recover_all-keeps_Halted [] s id h = h
  recover_all-keeps_Halted (r ∷ rest) s id h =
      then_with-keeps (λ t. Halted (view t id)) (recover_one checkpoint_name moves r s) _
        (recover_one-keeps_Halted r s id h)
        λ n t k.
          then_with-keeps (λ t'. Halted (view t' id)) (recover_all checkpoint_name moves rest t) _
            (recover_all-keeps_Halted rest t id k) λ m t' k'. k'

  recover_all-Halted :
      (rs : List JobWithNovel) (s s' : Store) (n : ℕ)
      → recover_all checkpoint_name moves rs s ≡ (s', ok n)
      → All (HaltedIn s') rs
  unfolding recover_all
  recover_all-Halted [] s s' n h = tt
  recover_all-Halted (r ∷ rest) s s' n h =
      let first = recover_one checkpoint_name moves r s in
      let (k, one, more) = then_with-ok first _ s' n h in
      let (m, others, last) =
        then_with-ok (recover_all checkpoint_name moves rest first.0) _ s' n more in
      let store : (recover_all checkpoint_name moves rest first.0).0 ≡ s' =
        ap (λ (o : Stored ℕ). o.0) last in
      (
        λ t.
            subst (λ (u : Store). Halted (view u r.job.job_id)) store
              (recover_all-keeps_Halted rest first.0 r.job.job_id
                (recover_one-Halted r s first.0 k one t)),
        recover_all-Halted rest first.0 s' m
            (others ∙ ap (λ (u : Store). (let o : Stored ℕ = (u, ok m) in o)) store),
      )

  -- After a recovery that succeeds, whatever jobs it found running or pausing are not any more:
  -- the document of each is current and says another status. The jobs are those that
  -- LoadJobsForExecution listed before it.
  pub recover_running_jobs-Halted :
      (s s' : Store) (rs : List JobWithNovel) (n : ℕ)
      → load_for_execution s ≡ ok rs
      → recover_running_jobs checkpoint_name moves s ≡ (s', ok n)
      → All (λ r. was_running r.job.status ≡ true → Halted (view s' r.job.job_id)) rs
  unfolding recover_running_jobs
  recover_running_jobs-Halted s s' rs n e h = recover_all-Halted rs s s' n (rw e at h)
