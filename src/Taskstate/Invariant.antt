-- ===== src/Taskstate/Invariant.antt =====
-- What holds of the two task tables between transactions, and the updates that keep it.
use narou_viewer.Prelude.{
  ℕ, ◌+◌, ◌≤◌, ℤ, ◌≡◌, refl, String, none, List, [], ◌∷◌, str_eq, str_eq_iff, str_eq_refl, count,
  All, ok, arith, Bool-cases, inl, inr, int_eq_refl, subst,
}
use narou_viewer.Taskstate.Model.{Row, Db, Request, RequestJson, encoded}
use narou_viewer.Taskstate.Target.{Env}
use narou_viewer.Taskstate.Request.{decode_request, validate_request}
use narou_viewer.Taskstate.Scan.{current_request_version, scan_task, task_of}
use narou_viewer.Taskstate.Schema.{by_id, clash, first_clash, violation}
use narou_viewer.Taskstate.Claim.{by_queued_id}
use narou_viewer.Taskstate.Tables.{violation-cons, first_clash-cons}

-- The request column holds a valid request that agrees with the other columns, its dedupe key and
-- its fingerprint among them.
pub record ReadableColumns (env : Env) (version : ℕ) (kind : String) (json : RequestJson) (work : ℤ)
    (key fp : String) : Type 0 where
  pub request : Request
  pub is_encoded : json ≡ encoded request
  pub is_current : version ≡ current_request_version
  pub same_kind : request.kind ≡ kind
  pub same_work : work ≡ request.work_id
  pub valid_key : validate_request env request ≡ ok key
  pub fingerprint : fp ≡ env.digest request.kind key request.work_id request.options

abbrev pub Readable : Env → Row → Type 0
Readable env r =
    ReadableColumns env r.request_version r.kind r.request_json r.primary_work_id r.dedupe_key
      r.request_fingerprint

pub record Inv (env : Env) (db : Db) : Type 0 where
  pub constrained : violation db.tasks ≡ none
  pub queue_matches : (id : String) → count (str_eq id) db.queue ≡ count (by_queued_id id) db.tasks
  pub readable : All (Readable env) db.tasks

abbrev pub empty_db : Db
empty_db = record { tasks = []; queue = [] }

pub empty-Inv : (env : Env) → Inv env empty_db
unfolding violation count
empty-Inv env = record { constrained = refl; queue_matches = λ id. refl; readable = tt }

-- A readable row scans.
pub scan_task-Readable :
    (env : Env) (r : Row) (h : Readable env r) → scan_task env r ≡ ok (task_of r h.request)
unfolding scan_task decode_request
scan_task-Readable env r h =
    rw (h.is_encoded, decode_request, h.valid_key)
      (rw (h.is_current) (rw (h.same_kind, str_eq_refl) (rw (h.same_work, int_eq_refl) refl)))

-- No two rows have one id.
pub first_clash-ids :
    (r : Row) (rows : List Row) → first_clash r rows ≡ none → count (by_id r.task_id) rows ≡ 0
unfolding count clash
first_clash-ids r [] e = refl
first_clash-ids r (s ∷ rows) e =
    let (e₁, e₂) = first_clash-cons r s rows e in
    ground (
      arith,
      first_clash-ids r rows e₂,
      str_eq_iff r.task_id s.task_id,
      str_eq_iff s.task_id r.task_id,
    )

pub count-by_id-le_one :
    (id : String) (rows : List Row) → violation rows ≡ none → count (by_id id) rows ≤ 1
unfolding count
count-by_id-le_one id [] e = omega arith
count-by_id-le_one id (r ∷ rows) e =
    let (e₁, e₂, e₃) = violation-cons r rows e in
    elim (Bool-cases (str_eq r.task_id id)) [
      | inl t ↦ rw t (
          subst (λ j. 1 + count (by_id j) rows ≤ 1) ((str_eq_iff r.task_id id).0 t)
            (omega (arith, first_clash-ids r rows e₂)))
      | inr f ↦ rw f (omega (arith, count-by_id-le_one id rows e₃))
    ]
