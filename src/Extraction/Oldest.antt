-- ===== src/Extraction/Oldest.antt =====
-- application/extraction/job_coordinator.go: the order in which jobs are processed.
use narou_viewer.Extraction.Coordinator.{
  is_executable, next_record, process_round, processes, start_if_executable,
}
use narou_viewer.Extraction.Files.{JobError, Store}
use narou_viewer.Extraction.Jobs.{Job, JobWithNovel}
use narou_viewer.Extraction.Reading.{
  collect, filter_records, is_blocked, is_newer, load_for_execution, load_jobs, sort_job_records,
}
use narou_viewer.Prelude.{
  All, All-mono, Bool-cases, IsSorted, List, Option-cases, Result, Result-cases, [], ap, arith, err,
  false, inl, inr, none, not, ok, some, sort_stable, sort_stable-IsSorted, subst, text_lt,
  text_lt_asym, text_lt_cotrans, text_lt_irrefl, true, ◌∙◌, ◌∷◌, ◌≡◌,
}

is_newer-asym : (x y : JobWithNovel) → is_newer x y ≡ true → is_newer y x ≡ false
is_newer-asym x y h = text_lt_asym y.job.created_at x.job.created_at h

is_newer-cotrans :
    (x y z : JobWithNovel) → is_newer x y ≡ false → is_newer y z ≡ false → is_newer x z ≡ false
is_newer-cotrans x y z h k = text_lt_cotrans z.job.created_at y.job.created_at x.job.created_at k h

-- No executable record is older than `r`.
abbrev pub NoneOlder : JobWithNovel → JobWithNovel → Type 0
NoneOlder r x =
    is_executable x.job.status ≡ true → text_lt x.job.created_at r.job.created_at ≡ false

next_record-none :
    (rs : List JobWithNovel)
    → next_record rs ≡ none
    → All (λ x. is_executable x.job.status ≡ false) rs
unfolding next_record
next_record-none [] h = tt
next_record-none (r ∷ rest) h = elim (Option-cases (next_record rest)) [
  | inl e ↦ (ground arith, next_record-none rest e)
  | inr (x, e) ↦ absurd (ground arith)
]

next_record-executable :
    (rs : List JobWithNovel) (r : JobWithNovel)
    → next_record rs ≡ some r
    → is_executable r.job.status ≡ true
unfolding next_record
next_record-executable [] r h = absurd (cc)
next_record-executable (x ∷ rest) r h = elim (Option-cases (next_record rest)) [
  | inl e ↦ ground arith
  | inr (y, e) ↦ next_record-executable rest r (ground arith)
]

-- The chosen record stands at the end of the sorted list, or before ones that cannot be executed.
next_record-member {κ} :
    (P : JobWithNovel → Type κ) (rs : List JobWithNovel) (r : JobWithNovel)
    → All P rs
    → next_record rs ≡ some r
    → P r
unfolding next_record
next_record-member P [] r a h = absurd (cc)
next_record-member P (x ∷ rest) r a h = elim (Option-cases (next_record rest)) [
  | inl e ↦ elim (Bool-cases (is_executable x.job.status)) [
    | inl t ↦ subst P (ground arith) a.0
    | inr f ↦ absurd (ground arith)
  ]
  | inr (y, e) ↦ next_record-member P rest r a.1 (ground arith)
]

next_record-oldest :
    (rs : List JobWithNovel) (r : JobWithNovel)
    → IsSorted is_newer rs
    → next_record rs ≡ some r
    → All (NoneOlder r) rs
unfolding next_record IsSorted
next_record-oldest [] r sorted h = tt
next_record-oldest (x ∷ rest) r sorted h = elim (Option-cases (next_record rest)) [
  | inl e ↦ elim (Bool-cases (is_executable x.job.status)) [
    | inl t ↦
        let same : x ≡ r = ground arith in
        (
          λ u. rw (← same) (text_lt_irrefl x.job.created_at),
          All-mono _ (NoneOlder r) (λ y idle u. absurd (ground arith)) rest
              (next_record-none rest e),
        )
    | inr f ↦ absurd (ground arith)
  ]
  | inr (y, e) ↦
      let later : next_record rest ≡ some r = ground arith in
      (
        λ u. next_record-member (λ z. is_newer z x ≡ false) rest r sorted.0 later,
        next_record-oldest rest r sorted.1 later,
      )
]

-- The job that a round hands to the processor is queued or running, and none of the jobs of the
-- round that could be executed was created before it: jobs are processed in the order of their
-- creation, as the texts of the times compare.
pub process_round-oldest :
    (s s' : Store) (rs : List JobWithNovel) (r : JobWithNovel)
    → load_for_execution s ≡ ok rs
    → process_round s s' ≡ processes r
    → (is_executable r.job.status ≡ true) × All (NoneOlder r) rs
unfolding process_round load_for_execution sort_job_records
process_round-oldest s s' rs r e h = elim (Option-cases (next_record rs)) [
  | inl missing ↦ absurd (ground arith)
  | inr (x, found) ↦
      let same : x ≡ r = started_record x (load_jobs x.novel_id s') (rw (e, found) at h) in
      let chosen : next_record rs ≡ some r = found ∙ ap (λ y. some y) same in
      (next_record-executable rs r chosen, next_record-oldest rs r (ordered e) chosen)
]
  where
    started_record :
        (x : JobWithNovel) (l : Result JobError (List Job))
        → start_if_executable x l ≡ processes r
        → x ≡ r
    started_record x (err why) k = absurd (ground arith)
    started_record x (ok jobs) k = ground arith

    ordered : load_for_execution s ≡ ok rs → IsSorted is_newer rs
    ordered k = elim (Result-cases (collect s.jobs)) [
      | inl (c, read) ↦
          let kept = filter_records (λ x. not (is_blocked c x.novel_id)) c.records in
          let same : sort_stable is_newer kept ≡ rs = ground arith in
          subst (IsSorted is_newer) same
            (sort_stable-IsSorted is_newer is_newer-asym is_newer-cotrans kept)
      | inr (why, read) ↦ absurd (ground arith)
    ]
