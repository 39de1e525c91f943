-- ===== src/Taskstate/Updates.antt =====
-- The updates of Schema.antt that keep the invariant of Invariant.antt.
use narou_viewer.Prelude.{
  ◌≡◌, sym, ◌∙◌, String, Bool, true, false, not, ◌&&◌, List, [], ◌∷◌, ◌++◌, if◌then◌else◌, str_eq,
  str_eq_iff, any, count, arith, Bool-cases, inl, inr, count-append, any-count, All-append_one,
  none, any-pos,
}
use narou_viewer.Taskstate.Model.{Row, Db, is_queued}
use narou_viewer.Taskstate.Target.{Env}
use narou_viewer.Taskstate.Schema.{by_id, violation, update_where, without, delete_queue}
use narou_viewer.Taskstate.Claim.{by_queued_id}
use narou_viewer.Taskstate.Invariant.{Inv, Readable, count-by_id-le_one}
use narou_viewer.Taskstate.Tables.{
  updated, count-update_where, count-update_where_of, All-update_where, count-delete_queue,
}

abbrev requeued : String → String → Row → Bool
requeued id j r = if str_eq r.task_id id then str_eq r.task_id j else by_queued_id j r

count-requeued :
    (id j : String) (rows : List Row)
    → count (requeued id j) rows
      ≡ (if str_eq id j then count (by_id id) rows else count (by_queued_id j) rows)
unfolding count
count-requeued id j [] = ground arith
count-requeued id j (r ∷ rows) = ground (
  arith,
  count-requeued id j rows,
  str_eq_iff r.task_id id,
  str_eq_iff r.task_id j,
  str_eq_iff id j,
)

count-one : (p : String → Bool) (id : String) → count p (id ∷ []) ≡ (if p id then 1 else 0)
unfolding count
count-one p id = ground arith

module _ (env : Env) (p : Row → Bool) (f : Row → Row)
    (readable : (r : Row) → p r ≡ true → Readable env r → Readable env (f r)) where
  Readable-updated : (r : Row) → Readable env r → Readable env (updated p f r)
  Readable-updated r h = elim (Bool-cases (p r)) [ inl t ↦ rw t (readable r t h) | inr e ↦ rw e h ]

  -- An update that moves no row into or out of the status queued.
  pub Inv-update :
      (db : Db)
      → ((id : String) (r : Row) → by_queued_id id (updated p f r) ≡ by_queued_id id r)
      → violation (update_where p f db.tasks) ≡ none
      → Inv env db
      → Inv env (record db { tasks = update_where p f db.tasks })
  Inv-update db q v i = record {
    constrained = v;
    queue_matches =
        λ id. i.queue_matches id ∙ sym (count-update_where p f (by_queued_id id) (q id) db.tasks);
    readable =
        All-update_where p f (Readable env) (Readable env) Readable-updated db.tasks i.readable;
  }

  abbrev other_than : String → String → Row → Bool
  other_than id j r = not (str_eq j id) && by_queued_id j r

  count-other_than :
      (id j : String) (rows : List Row)
      → count (other_than id j) rows ≡ (if str_eq j id then 0 else count (by_queued_id j) rows)
  unfolding count
  count-other_than id j [] = ground arith
  count-other_than id j (r ∷ rows) = ground (arith, count-other_than id j rows)

  -- An update that takes one id out of the status queued, and the delete of its queue row.
  pub Inv-dequeue :
      (id : String) (db : Db)
      → ((j : String) (r : Row) → by_queued_id j (updated p f r) ≡ other_than id j r)
      → violation (update_where p f db.tasks) ≡ none
      → Inv env db
      → Inv env (record { tasks = update_where p f db.tasks; queue = without id db.queue })
  unfolding delete_queue
  Inv-dequeue id db q v i = record {
    constrained = v;
    queue_matches = λ j. ground (
      arith,
      count-delete_queue j id db,
      i.queue_matches j,
      count-update_where_of p f (by_queued_id j) (other_than id j) (q j) db.tasks,
      count-other_than id j db.tasks,
    );
    readable =
        All-update_where p f (Readable env) (Readable env) Readable-updated db.tasks i.readable;
  }

  -- An update that queues the rows of one id, none of which was queued, and the insert of its
  -- queue row.
  pub Inv-requeue :
      (id : String) (db : Db)
      → ((j : String) (r : Row)
          → by_queued_id j (updated p f r)
            ≡ (if str_eq r.task_id id then str_eq r.task_id j else by_queued_id j r))
      → violation (update_where p f db.tasks) ≡ none
      → violation db.tasks ≡ none
      → any (by_id id) db.tasks ≡ true
      → any (str_eq id) db.queue ≡ false
      → Inv env db
      → Inv env (record { tasks = update_where p f db.tasks; queue = db.queue ++ id ∷ [] })
  Inv-requeue id db q v v' present absent i = record {
    constrained = v;
    queue_matches = λ j. ground (
      arith,
      count-append (str_eq j) db.queue (id ∷ []),
      count-one (str_eq j) id,
      i.queue_matches j,
      count-update_where_of p f (by_queued_id j) (requeued id j) (q j) db.tasks,
      count-requeued id j db.tasks,
      count-by_id-le_one id db.tasks v',
      any-pos (by_id id) db.tasks present,
      any-count (str_eq id) db.queue absent,
      str_eq_iff j id,
      str_eq_iff id j,
    );
    readable =
        All-update_where p f (Readable env) (Readable env) Readable-updated db.tasks i.readable;
  }

-- A new queued row whose id is in neither table.
pub Inv-insert :
    (env : Env) (r : Row) (db : Db)
    → is_queued r.status ≡ true
    → Readable env r
    → violation (db.tasks ++ r ∷ []) ≡ none
    → any (str_eq r.task_id) db.queue ≡ false
    → Inv env db
    → Inv env (record { tasks = db.tasks ++ r ∷ []; queue = db.queue ++ r.task_id ∷ [] })
unfolding count
Inv-insert env r db q h v absent i = record {
  constrained = v;
  queue_matches = λ j. ground (
    arith,
    count-append (str_eq j) db.queue (r.task_id ∷ []),
    count-append (by_queued_id j) db.tasks (r ∷ []),
    i.queue_matches j,
    str_eq_iff j r.task_id,
    str_eq_iff r.task_id j,
  );
  readable = All-append_one (Readable env) db.tasks r i.readable h;
}
