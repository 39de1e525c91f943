-- ===== src/Taskstate/Request.antt =====
-- taskstate/request.go: what a request may contain, and its dedupe key and fingerprint.
use Prim.Native.String.{◌++◌}
use Prim.Native.Char.{Char}
use narou_viewer.Prelude.{
  Result, String, err, fail_if, if◌then◌else◌, is_neg, is_pos, negsuc, not, ok, pos, str_eq, suc,
  zero, ℕ, ℤ, ◌%◌, ◌/◌, ◌==◌, ◌>>=◌, ◌>>◌, ◌||◌,
}
use narou_viewer.Taskstate.Model.{
  Error, Request, RequestError, RequestJson, Task, bad_request, empty_target, encoded,
  invalid_work_id, malformed, malformed_row, not_one_work, unsupported_kind, unsupported_options,
}
use narou_viewer.Taskstate.Target.{Env, canonical_target}

unfoldable pub digit : ℕ → Char
digit zero = "0"
digit (suc zero) = "1"
digit (suc (suc zero)) = "2"
digit (suc (suc (suc zero))) = "3"
digit (suc (suc (suc (suc zero)))) = "4"
digit (suc (suc (suc (suc (suc zero))))) = "5"
digit (suc (suc (suc (suc (suc (suc zero)))))) = "6"
digit (suc (suc (suc (suc (suc (suc (suc zero))))))) = "7"
digit (suc (suc (suc (suc (suc (suc (suc (suc zero)))))))) = "8"
digit (suc (suc (suc (suc (suc (suc (suc (suc (suc n))))))))) = "9"

-- The decimal digits of `n` before `rest`; `n` rounds are enough.
unfoldable pub decimal : ℕ → ℕ → String → String
unfolding digit
decimal zero n rest = rest
decimal (suc fuel) n rest =
    let more = decimal fuel (n / 10) (String.◌∷◌ (digit (n % 10)) rest) in
    if n / 10 == 0 then String.◌∷◌ (digit (n % 10)) rest else more

-- strconv.Itoa.
unfoldable pub itoa : ℤ → String
unfolding decimal
itoa (pos n) = decimal (suc n) n ""
itoa (negsuc n) = "-" ++ decimal (suc (suc n)) (suc n) ""

abbrev pub work_key : ℤ → String
work_key w = "work:" ++ itoa w

module _ (env : Env) where
  validate_download : Request → Result RequestError String
  validate_download r = do
    fail_if (r.options.force_redownload || r.options.skip_unchanged) unsupported_options
    fail_if (is_neg r.work_id) invalid_work_id
    fail_if (str_eq (canonical_target env r.target) "") empty_target
    ok (canonical_target env r.target)

  unfoldable pub validate_update : Request → Result RequestError String
  validate_update r = do
    fail_if (not (str_eq r.target "") || not (is_pos r.work_id)) not_one_work
    fail_if r.options.force unsupported_options
    ok (work_key r.work_id)

  validate_resume : Request → Result RequestError String
  validate_resume r = do
    fail_if (not (str_eq r.target "") || not (is_pos r.work_id)) not_one_work
    fail_if (r.options.force || (r.options.force_redownload || r.options.skip_unchanged))
        unsupported_options
    ok (work_key r.work_id)

  unfoldable pub validate_request : Request → Result RequestError String
  unfolding validate_download validate_update validate_resume
  validate_request r =
      if str_eq r.kind "download"
      then validate_download r
      else if str_eq r.kind "update"
      then validate_update r
      else if str_eq r.kind "resume"
      then validate_resume r
      else err unsupported_kind

  abbrev pub request_of : Task → Request
  request_of t = record {
    kind = t.kind;
    target = t.target;
    work_id = t.work_id;
    options = record {
      force = t.force;
      force_redownload = t.force_redownload;
      skip_unchanged = t.skip_unchanged;
    };
  }

  unfoldable pub lift_request : {A : Type 0} → Result RequestError A → Result Error A
  lift_request (ok a) = ok a
  lift_request (err e) = err (bad_request e)

  -- RequestForTask: the request, its dedupe key and its fingerprint.
  unfoldable pub request_for_task : Task → Result Error (Request × String × String)
  unfolding lift_request
  request_for_task t = do
    let request = request_of t
    key ← lift_request (validate_request request)
    ok (request, key, env.digest request.kind key request.work_id request.options)

  -- DecodeRequest, on a column's value.
  unfoldable pub decode_request : RequestJson → Result Error Request
  unfolding lift_request
  decode_request malformed = err malformed_row
  decode_request (encoded r) = do key ← lift_request (validate_request r); ok r
