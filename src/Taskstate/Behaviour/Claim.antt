-- ===== src/Taskstate/Behaviour/Claim.antt =====
-- taskstate/sqlite.go, ClaimNext on tables that meet the invariant.
use narou_viewer.Prelude.{
  All, List, String, [], ap, arith, count, err, false, find, find-holds, if◌then◌else◌, none, ok,
  refl, some, true, ℕ, ◌+◌, ◌<◌, ◌∙◌, ◌∷◌, ◌≡◌, ◌≢◌, ◌≤◌,
}
use narou_viewer.Taskstate.Behaviour.Reading.{find-updated, get_tx_ok, queue-head, Readable-row}
use narou_viewer.Taskstate.Claim.{by_queued_id, claim, claim_head, claim_next, start}
use narou_viewer.Taskstate.Constraints.{violation-claim}
use narou_viewer.Taskstate.Invariant.{Inv, Readable}
use narou_viewer.Taskstate.Model.{
  Constraint, Db, Request, Row, constraint, is_queued, is_running, queued,
}
use narou_viewer.Taskstate.Progress.{is_running_row}
use narou_viewer.Taskstate.Reads.{count-by_id_and}
use narou_viewer.Taskstate.Scan.{get_tx, task_of}
use narou_viewer.Taskstate.Schema.{
  by_id, clash, delete_queue, first_clash, update_tasks, update_where, violation, without,
}
use narou_viewer.Taskstate.Tables.{
  first_clash-cons, update_tasks_ok, update_tasks_refused, violation-cons,
}
use narou_viewer.Taskstate.Target.{Env}

count-zero_All :
    (rows : List Row) → count is_running_row rows ≡ 0 → All (λ r. is_running r.status ≡ false) rows
unfolding count
count-zero_All [] e = tt
count-zero_All (r ∷ rows) e = (ground arith, count-zero_All rows (ground arith))

first_clash-running :
    (r : Row) (rows : List Row)
    → first_clash r rows ≡ none
    → is_running r.status ≡ true
    → count is_running_row rows ≡ 0
unfolding count clash
first_clash-running r [] e t = refl
first_clash-running r (s ∷ rows) e t =
    let (e₁, e₂) = first_clash-cons r s rows e in ground (arith, first_clash-running r rows e₂ t)

-- The index on the status running: a table has one running task at most.
pub count-running-le_one : (rows : List Row) → violation rows ≡ none → count is_running_row rows ≤ 1
unfolding count
count-running-le_one [] v = omega arith
count-running-le_one (r ∷ rows) v =
    let (checked, clear, v') = violation-cons r rows v in
    ground (arith, first_clash-running r rows clear, count-running-le_one rows v')

count-start :
    (id : String) (now : ℕ) (rows : List Row)
    → count is_running_row (update_where (by_queued_id id) (start now) rows)
      ≡ count is_running_row rows + count (by_queued_id id) rows
unfolding count update_where start
count-start id now [] = omega arith
count-start id now (r ∷ rows) = ground (arith, count-start id now rows)

module _ (env : Env) where
  start-Readable : (now : ℕ) (r : Row) → Readable env r → Readable env (start now r)
  unfolding start
  start-Readable now r h = h

  claim_next-cons :
      (now : ℕ) (db : Db) (id : String) (rest : List String)
      → db.queue ≡ id ∷ rest
      → claim_next env now db ≡ claim env id now db
  unfolding claim_next claim_head
  claim_next-cons now db id rest e = ap (λ q. claim_head env q now db) e

  claim-ok :
      (now : ℕ) (db : Db) (id : String) (row : Row) (h : Readable env (start now row))
      → find (by_id id) db.tasks ≡ some row
      → is_queued row.status ≡ true
      → violation (update_where (by_queued_id id) (start now) db.tasks) ≡ none
      → claim env id now db
        ≡ ok (
          record {
            tasks = update_where (by_queued_id id) (start now) db.tasks;
            queue = without id db.queue;
          },
          some (task_of (start now row) h.request),
        )
  unfolding claim delete_queue
  claim-ok now db id row h found waiting v =
      rw found (rw waiting (rw (update_tasks_ok (by_queued_id id) (start now) db v) (rw read refl)))
    where
      taken : by_queued_id id row ≡ true
      taken = rw (find-holds (by_id id) db.tasks row found) waiting

      after_start : Db
      after_start = record {
        tasks = update_where (by_queued_id id) (start now) db.tasks;
        queue = without id db.queue;
      }

      read : get_tx env id after_start ≡ ok (some (task_of (start now row) h.request))
      read = get_tx_ok env id after_start (start now row) h (
          find-updated env (by_queued_id id) (start now) id db.tasks row (λ s. unfold start in refl)
            found taken)

  -- While no task runs, ClaimNext always succeeds on a queue that is not empty: it starts the task
  -- at the head of the queue under the next attempt, and leaves the rest of the queue in order.
  pub claim_next-head :
      (now : ℕ) (db : Db) (id : String) (rest : List String)
      → Inv env db
      → db.queue ≡ id ∷ rest
      → count is_running_row db.tasks ≡ 0
      → (row : Row) × (q : Request) × (find (by_id id) db.tasks ≡ some row)
        × (row.status ≡ queued)
        × (claim_next env now db
            ≡ ok (
              record { tasks = update_where (by_queued_id id) (start now) db.tasks; queue = rest },
              some (task_of (start now row) q),
            ))
  claim_next-head now db id rest i e idle =
      let (row, found, waiting, kept) = queue-head env db id rest i e in
      let h = start-Readable now row (Readable-row env i id row found) in
      (
        row,
        h.request,
        found,
        waiting,
        claim_next-cons now db id rest e
            ∙ (claim-ok now db id row h found (ap is_queued waiting)
                  (violation-claim id now db.tasks (count-zero_All db.tasks idle) i.constrained)
                ∙ ap
                    (λ q. ok (
                      record {
                        tasks = update_where (by_queued_id id) (start now) db.tasks;
                        queue = q;
                      },
                      some (task_of (start now row) h.request),
                    ))
                    kept),
      )

  -- While a task runs, a constraint of the schema refuses the claim, and nothing changes.
  pub claim_next-busy :
      (now : ℕ) (db : Db) (id : String) (rest : List String)
      → Inv env db
      → db.queue ≡ id ∷ rest
      → 0 < count is_running_row db.tasks
      → (c : Constraint) × (claim_next env now db ≡ err (constraint c))
  claim_next-busy now db id rest i e busy =
      let (row, found, waiting, kept) = queue-head env db id rest i e in
      let (c, refused) =
        update_tasks_refused (by_queued_id id) (start now) db (two_running row found waiting) in
      (c, claim_next-cons now db id rest e ∙ claim-refused row found waiting c refused)
    where
      taken-count :
          (row : Row)
          → find (by_id id) db.tasks ≡ some row
          → row.status ≡ queued
          → count (by_queued_id id) db.tasks ≡ 1
      taken-count row found waiting =
          count-by_id_and id (λ s. is_queued s.status) db.tasks row i.constrained found
          ∙ ap (λ x. if is_queued x then 1 else 0) waiting

      two_running :
          (row : Row)
          → find (by_id id) db.tasks ≡ some row
          → row.status ≡ queued
          → violation (update_where (by_queued_id id) (start now) db.tasks) ≢ none
      two_running row found waiting v = absurd (
          omega (
            arith,
            count-running-le_one (update_where (by_queued_id id) (start now) db.tasks) v,
            count-start id now db.tasks,
            taken-count row found waiting,
          ))

      claim-refused :
          (row : Row)
          → find (by_id id) db.tasks ≡ some row
          → row.status ≡ queued
          → (c : Constraint) → update_tasks (by_queued_id id) (start now) db ≡ err (constraint c)
          → claim env id now db ≡ err (constraint c)
      claim-refused row found waiting c refused =
          unfold claim in rw found (rw waiting (rw refused refl))
