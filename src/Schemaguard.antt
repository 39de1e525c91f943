-- ===== src/Schemaguard.antt =====
-- apps/viewer-api-go/internal/state/schemaguard/guard.go: which versions of a stored document are
-- read. The decoders of YAML and JSON give a header; an error's text and cause are left out.
use narou_viewer.Prelude.{
  Bool, List, Option, Result, String, any, err, false, if◌then◌else◌, int_eq, int_le, none, not, ok,
  some, str_eq, trim_space, true, ℤ, ◌&&◌,
}

pub data MissingPolicy : Type 0 where
  missing_reject missing_treat_as_legacy : MissingPolicy

-- The type Status.
pub data SchemaStatus : Type 0 where
  current legacy future_unknown unsupported_legacy malformed : SchemaStatus

pub record Contract : Type 0 where
  pub id : String
  pub path : String
  pub current_version : ℤ
  pub readable_legacy : List ℤ
  pub missing_policy : MissingPolicy
  pub missing_legacy_version : ℤ

-- The struct Result.
pub record Checked : Type 0 where
  pub contract : Contract
  pub status : SchemaStatus
  pub observed : Option ℤ

pub record GuardError : Type 0 where
  pub checked : Checked

-- What the decoder makes of the field for the version: it fails, or the field may be missing.
pub data Header : Type 0 where
  undecodable : Header
  header : Option ℤ → Header

unfoldable pub with_path : String → Contract → Contract
with_path path c = if str_eq (trim_space c.path) "" then record c { path = path } else c

abbrev pub checked_as : SchemaStatus → Option ℤ → Contract → Checked
checked_as s observed c = record { contract = c; status = s; observed = observed }

abbrev pub guard_error : SchemaStatus → Option ℤ → Contract → GuardError
guard_error s observed c = record { checked = checked_as s observed c }

-- slices.Contains(c.ReadableLegacy, v).
unfoldable pub reads_legacy : ℤ → Contract → Bool
reads_legacy v c = any (λ w. int_eq w v) c.readable_legacy

abbrev pub treats_as_legacy : MissingPolicy → Bool
treats_as_legacy missing_treat_as_legacy = true
treats_as_legacy missing_reject = false

unfoldable pub classify : Option ℤ → Contract → Result GuardError Checked
classify none c =
    if treats_as_legacy c.missing_policy && reads_legacy c.missing_legacy_version c
    then ok (checked_as legacy none c)
    else err (guard_error unsupported_legacy none c)
classify (some v) c =
    if int_eq v c.current_version
    then ok (checked_as current (some v) c)
    else if reads_legacy v c
    then ok (checked_as legacy (some v) c)
    else if not (int_le v c.current_version)
    then err (guard_error future_unknown (some v) c)
    else err (guard_error unsupported_legacy (some v) c)

-- malformedResult
abbrev pub malformed_result : Contract → GuardError
malformed_result c = guard_error malformed none c

-- CheckYAML, CheckJSON
unfoldable pub check_header : Header → Contract → Result GuardError Checked
check_header undecodable c = err (malformed_result c)
check_header (header v) c = classify v c
