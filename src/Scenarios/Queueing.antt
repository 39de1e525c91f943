-- ===== src/Scenarios/Queueing.antt =====
-- Claims and new tasks on the small tables.
-- Work 7 runs, and a request to update work 8 waits.
use narou_viewer.Prelude.{
  [], arith, count, err, find, none, ok, pos, refl, some, str_eq, str_eq_comm, str_eq_refl, subst,
  sym, true, ◌++◌, ◌<◌, ◌∷◌, ◌≡◌, ◌≢◌,
}
use narou_viewer.Scenarios.Tables.{
  env0, queued_row, Readable-update, running_Inv, running_db, running_row, update_key,
  update_request, update_task, waiting_Inv, waiting_db,
}
use narou_viewer.Taskstate.Behaviour.Claim.{claim_next-busy}
use narou_viewer.Taskstate.Behaviour.Enqueue.{enqueue_one-new, enqueue_one-reserved}
use narou_viewer.Taskstate.Claim.{claim_next, start}
use narou_viewer.Taskstate.Enqueue.{chosen_id, enqueue_one, new_row, queued_task}
use narou_viewer.Taskstate.Invariant.{Inv, Readable}
use narou_viewer.Taskstate.Model.{
  Constraint, Db, Request, Row, Task, constraint, task_already_active,
}
use narou_viewer.Taskstate.Progress.{is_running_row}
use narou_viewer.Taskstate.Request.{
  decimal, digit, itoa, lift_request, request_for_task, request_of, validate_request,
  validate_update, work_key,
}
use narou_viewer.Taskstate.Scan.{task_of}
use narou_viewer.Taskstate.Schema.{
  by_id, check_row, clash, first_clash, reserves_key, reserves_work, violation,
}

abbrev other_task : Task
other_task = record update_task { id = "b"; work_id = pos 8 }

abbrev other_request : Request
other_request = request_of env0 other_task

abbrev other_row : Row
other_row = new_row 1 "b" other_task other_request (work_key (pos 8)) "f"

abbrev busy_db : Db
busy_db = record { tasks = running_row ∷ other_row ∷ []; queue = "b" ∷ [] }

other_key : validate_request env0 other_request ≡ ok (work_key (pos 8))
unfolding validate_request validate_update str_eq
other_key = refl

Readable-other : Readable env0 other_row
unfolding new_row
Readable-other = record {
  request = other_request;
  is_encoded = refl;
  is_current = refl;
  same_kind = refl;
  same_work = refl;
  valid_key = other_key;
  fingerprint = refl;
}

busy_constrained : violation busy_db.tasks ≡ none
unfolding violation check_row first_clash clash new_row start str_eq itoa decimal digit
busy_constrained = refl

busy_Inv : Inv env0 busy_db
unfolding count new_row start
busy_Inv = record {
  constrained = busy_constrained;
  queue_matches = λ id. ground (arith, str_eq_comm id "b");
  readable = (Readable-update, (Readable-other, tt));
}

busy_running : 0 < count is_running_row busy_db.tasks
unfolding count new_row start
busy_running = omega arith

claim_next-busy_example : (c : Constraint) × (claim_next env0 2 busy_db ≡ err (constraint c))
claim_next-busy_example = claim_next-busy env0 2 busy_db "b" [] busy_Inv refl busy_running

other_valid : request_for_task env0 other_task ≡ ok (other_request, work_key (pos 8), "f")
unfolding request_for_task lift_request
other_valid = rw other_key refl

other_free :
    (find (reserves_key (work_key (pos 8))) running_db.tasks ≡ none)
    × (find (reserves_work (pos 8)) running_db.tasks ≡ none)
    × (find (by_id "b") running_db.tasks ≡ none)
    × (check_row other_row ≡ true)
unfolding find new_row start str_eq itoa decimal digit check_row
other_free = (refl, refl, refl, refl)

other_chosen : chosen_id other_task "c" ≡ "b"
unfolding str_eq
other_chosen = refl

enqueue_one-new_example :
    enqueue_one env0 1 other_task "c" running_db
    ≡ ok (
      record {
        tasks =
            running_db.tasks
            ++ new_row 1 (chosen_id other_task "c") other_task other_request (work_key (pos 8)) "f"
              ∷ [];
        queue = chosen_id other_task "c" ∷ [];
      },
      queued_task 1 (chosen_id other_task "c") other_task (work_key (pos 8)) "f",
      none,
    )
enqueue_one-new_example =
    enqueue_one-new env0 1 other_task "c" running_db other_request (work_key (pos 8)) "f"
      running_Inv other_valid other_free.0 (λ p. other_free.1)
      (subst (λ id. find (by_id id) running_db.tasks ≡ none) (sym other_chosen) other_free.2)
      (subst (λ id. check_row (new_row 1 id other_task other_request (work_key (pos 8)) "f") ≡ true)
        (sym other_chosen) other_free.3)

update_valid : request_for_task env0 update_task ≡ ok (update_request, work_key (pos 7), "f")
unfolding request_for_task lift_request
update_valid = rw update_key refl

update_reserved : find (reserves_key (work_key (pos 7))) waiting_db.tasks ≡ some queued_row
unfolding find new_row
update_reserved = rw (str_eq_refl (work_key (pos 7))) refl

enqueue_one-reserved_example :
    (queued_row.request_fingerprint ≡ "f"
      → (q : Request) × (enqueue_one env0 3 update_task "c" waiting_db
          ≡ ok (waiting_db, task_of queued_row q, some queued_row.task_id)))
    × (queued_row.request_fingerprint ≢ "f"
        → enqueue_one env0 3 update_task "c" waiting_db ≡ err task_already_active)
enqueue_one-reserved_example =
    enqueue_one-reserved env0 3 update_task "c" waiting_db update_request (work_key (pos 7)) "f"
      queued_row waiting_Inv update_valid update_reserved
