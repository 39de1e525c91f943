-- ===== src/Taskstate/Behaviour/Recover.antt =====
-- RecoverOnStartup on tables that meet the invariant.
use narou_viewer.Prelude.{
  All, All-mono, Bool, Bool-cases, List, [], any, any-count, any-of_count, ap, arith, count,
  count-pos_of_find, false, find, if◌then◌else◌, inl, inr, ltb, none, ok, refl, some, str_eq,
  str_eq_comm, str_eq_iff, str_eq_refl, subst, sym, true, ℕ, ◌∙◌, ◌∷◌, ◌≡◌,
}
use narou_viewer.Taskstate.Behaviour.Claim.{count-running-le_one}
use narou_viewer.Taskstate.Constraints.{Weaker, violation-Weaker}
use narou_viewer.Taskstate.Invariant.{Inv, Readable, first_clash-ids}
use narou_viewer.Taskstate.Model.{Db, Row, is_queued, is_running}
use narou_viewer.Taskstate.Progress.{is_running_row}
use narou_viewer.Taskstate.Reads.{count-by_id_and}
use narou_viewer.Taskstate.Recover.{
  by_running_id, check_request, check_requests, is_open, queue_gap, queue_stray, recover_on_startup,
  recover_row, recover_rows, set_recovered,
}
use narou_viewer.Taskstate.Request.{decode_request}
use narou_viewer.Taskstate.Schema.{by_id, check_row, first_clash, update_where, violation}
use narou_viewer.Taskstate.Tables.{All-update_where, update_tasks_ok, updated, violation-cons}
use narou_viewer.Taskstate.Target.{Env}

find-own-behind :
    (s r : Row) (rows : List Row)
    → first_clash s rows ≡ none
    → find (by_id r.task_id) rows ≡ some r
    → find (by_id r.task_id) (s ∷ rows) ≡ some r
unfolding find
find-own-behind s r rows clear found = elim (Bool-cases (str_eq s.task_id r.task_id)) [
  | inl t ↦ absurd (
      omega (
        arith,
        count-pos_of_find (by_id r.task_id) rows r found,
        subst (λ j. count (by_id j) rows ≡ 0) ((str_eq_iff s.task_id r.task_id).0 t)
            (first_clash-ids s rows clear),
      ))
  | inr f ↦ rw f found
]

pub find-own-All :
    (rows : List Row) → violation rows ≡ none → All (λ r. find (by_id r.task_id) rows ≡ some r) rows
find-own-All [] v = tt
find-own-All (s ∷ rows) v =
    let (checked, clear, v') = violation-cons s rows v in
    (
      (unfold find in rw (str_eq_refl s.task_id) refl),
      All-mono _ _ (λ r found. find-own-behind s r rows clear found) rows (find-own-All rows v'),
    )

pub count-none : (p : Row → Bool) (rows : List Row) → All (λ r. p r ≡ false) rows → count p rows ≡ 0
unfolding count
count-none p [] a = refl
count-none p (r ∷ rows) a = ground (arith, count-none p rows a.1)

-- In the queue or not, as the status says.
pub queue-agrees :
    (env : Env) (db : Db) (r : Row)
    → Inv env db
    → find (by_id r.task_id) db.tasks ≡ some r
    → any (str_eq r.task_id) db.queue ≡ is_queued r.status
queue-agrees env db r i found = elim (Bool-cases (is_queued r.status)) [
  | inl t ↦ elim (Bool-cases (any (str_eq r.task_id) db.queue)) [
    | inl there ↦ there ∙ sym t
    | inr away ↦ absurd (
        omega (
          arith,
          any-count (str_eq r.task_id) db.queue away,
          counts ∙ ap (λ x. if x then 1 else 0) t,
        ))
  ]
  | inr f ↦
      any-of_count (str_eq r.task_id) db.queue (counts ∙ ap (λ x. if x then 1 else 0) f) ∙ sym f
]
  where
    counts : count (str_eq r.task_id) db.queue ≡ (if is_queued r.status then 1 else 0)
    counts =
        i.queue_matches r.task_id
        ∙ count-by_id_and r.task_id (λ s. is_queued s.status) db.tasks r i.constrained found

no_gap : (env : Env) (db : Db) → Inv env db → count (queue_gap db) db.tasks ≡ 0
unfolding queue_gap
no_gap env db i = count-none (queue_gap db) db.tasks (
    All-mono _ _ (λ r found. ground (arith, queue-agrees env db r i found)) db.tasks
      (find-own-All db.tasks i.constrained))

no_stray : (env : Env) (db : Db) → Inv env db → count (queue_stray db) db.tasks ≡ 0
unfolding queue_stray
no_stray env db i = count-none (queue_stray db) db.tasks (
    All-mono _ _ (λ r found. ground (arith, queue-agrees env db r i found)) db.tasks
      (find-own-All db.tasks i.constrained))

set_recovered-Weaker :
    (now : ℕ) (r : Row) → is_running r.status ≡ true → Weaker r (set_recovered now r)
unfolding set_recovered
set_recovered-Weaker now r t = record {
  same_id = refl;
  same_key = refl;
  same_work = refl;
  runs_less = λ h. t;
  reserves_less = λ h. ground arith;
}

set_recovered-check :
    (now : ℕ) (r : Row) → check_row r ≡ true → check_row (set_recovered now r) ≡ true
unfolding check_row set_recovered
set_recovered-check now r h = ground arith

set_recovered-idle : (now : ℕ) (r : Row) → is_running (set_recovered now r).status ≡ false
unfolding set_recovered
set_recovered-idle now r = ground arith

-- The running rows that a loop over `rows` has still to recover.
abbrev Left : List Row → Db → Type 0
Left rows db =
    All (λ s. is_running s.status ≡ true → any (by_running_id s.task_id) rows ≡ true) db.tasks

Left-step :
    (now : ℕ) (r s : Row) (rows : List Row)
    → (is_running s.status ≡ true → any (by_running_id s.task_id) (r ∷ rows) ≡ true)
    → is_running (updated (by_running_id r.task_id) (set_recovered now) s).status ≡ true
    → any (by_running_id (updated (by_running_id r.task_id) (set_recovered now) s).task_id) rows
      ≡ true
unfolding any
Left-step now r s rows h = elim (Bool-cases (by_running_id r.task_id s)) [
  | inl t ↦ rw t (λ k. absurd (ground (arith, set_recovered-idle now s)))
  | inr f ↦ rw f (λ k. ground (arith, h k, str_eq_comm s.task_id r.task_id))
]

Left-skip :
    (r s : Row) (rows : List Row)
    → is_running r.status ≡ false
    → (is_running s.status ≡ true → any (by_running_id s.task_id) (r ∷ rows) ≡ true)
    → is_running s.status ≡ true
    → any (by_running_id s.task_id) rows ≡ true
unfolding any
Left-skip r s rows f h k = ground (arith, h k)

recover_rows_ok :
    (now : ℕ) (rows : List Row) (db : Db)
    → violation db.tasks ≡ none
    → Left rows db
    → (db' : Db) × (recover_rows now rows db ≡ ok db') × (count is_running_row db'.tasks ≡ 0)
unfolding recover_rows recover_row
recover_rows_ok now [] db v left =
    (db, refl, count-none is_running_row db.tasks (All-mono _ _ idle_row db.tasks left))
  where
    idle_row :
        (s : Row)
        → (is_running s.status ≡ true → any (by_running_id s.task_id) [] ≡ true)
        → is_running s.status ≡ false
    idle_row s h = unfold any in ground arith
recover_rows_ok now (r ∷ rows) db v left = elim (Bool-cases (is_running r.status)) [
  | inl t ↦
      let kept =
        violation-Weaker (by_running_id r.task_id) (set_recovered now) db.tasks
          (λ s h. set_recovered-Weaker now s (ground arith)) (λ s h c. set_recovered-check now s c)
          v in
      let (db', ran, idle) =
        recover_rows_ok now rows
          (record db {
            tasks = update_where (by_running_id r.task_id) (set_recovered now) db.tasks;
          })
          kept
          (All-update_where (by_running_id r.task_id) (set_recovered now) _ _
            (λ s h. Left-step now r s rows h) db.tasks left) in
      (
        db',
        rw t (rw (update_tasks_ok (by_running_id r.task_id) (set_recovered now) db kept) ran),
        idle,
      )
  | inr f ↦
      let (db', ran, idle) =
        recover_rows_ok now rows db v
          (All-mono _ _ (λ s h. Left-skip r s rows f h) db.tasks left) in
      (db', rw f ran, idle)
]

module _ (env : Env) where
  check_request_ok : (r : Row) → Readable env r → check_request env r ≡ ok tt
  unfolding check_request decode_request
  check_request_ok r h =
      rw (h.is_current)
        (rw (h.is_encoded, decode_request, h.valid_key) (rw (h.same_kind, str_eq_refl) refl))

  check_requests_ok : (rows : List Row) → All (Readable env) rows → check_requests env rows ≡ ok tt
  unfolding check_requests
  check_requests_ok [] a = refl
  check_requests_ok (r ∷ rows) a = elim (Bool-cases (is_open r.status)) [
    | inl t ↦ rw (t, check_request_ok r a.0) (check_requests_ok rows a.1)
    | inr f ↦ rw f (check_requests_ok rows a.1)
  ]

  -- RecoverOnStartup succeeds on every pair of tables that meets the invariant, so a process that
  -- died at any point can start again, and it leaves no task running.
  pub recover_on_startup-succeeds :
      (now : ℕ) (db : Db)
      → Inv env db
      → (db' : Db) × (recover_on_startup env now db ≡ ok db') × (count is_running_row db'.tasks ≡ 0)
  unfolding recover_on_startup
  recover_on_startup-succeeds now db i =
      let (db', ran, idle) = recover_rows_ok now db.tasks db i.constrained left in
      (
        db',
        rw (check_requests_ok db.tasks i.readable, no_gap env db i, no_stray env db i) (rw one ran),
        idle,
      )
    where
      one : ltb 1 (count is_running_row db.tasks) ≡ false
      one = ground (arith, count-running-le_one db.tasks i.constrained)

      live :
          (s : Row)
          → find (by_id s.task_id) db.tasks ≡ some s
          → is_running s.status ≡ true
          → any (by_running_id s.task_id) db.tasks ≡ true
      live s found k = elim (Bool-cases (any (by_running_id s.task_id) db.tasks)) [
        | inl t ↦ t
        | inr f ↦ absurd (
            omega (
              arith,
              any-count (by_running_id s.task_id) db.tasks f,
              count-by_id_and s.task_id (λ x. is_running x.status) db.tasks s i.constrained found
                  ∙ ap (λ x. if x then 1 else 0) k,
            ))
      ]

      left : Left db.tasks db
      left =
          All-mono _ _ (λ s found k. live s found k) db.tasks (find-own-All db.tasks i.constrained)
