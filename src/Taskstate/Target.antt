-- ===== src/Taskstate/Target.antt =====
-- taskstate/request.go, CanonicalTarget: the durable identity of a download target.
-- net/url, Unicode lower case and path.Clean are parameters; the two patterns are written out.
use Prim.Native.Char.{Char, code}
use Prim.Native.String.{◌++◌}
use narou_viewer.Prelude.{
  Bool, Option, String, false, if◌then◌else◌, leb, none, some, str_eq, trim_space, true, ℕ, ℤ, ◌&&◌,
  ◌==◌, ◌||◌,
}
use narou_viewer.Taskstate.Model.{RequestOptions}

-- What url.Parse returns, as far as it is read.
pub record Url : Type 0 where
  pub scheme : String
  pub host : String
  pub hostname : String
  pub path : String
  pub raw_path : String

-- url.Parse, (*URL).EscapedPath, strings.ToLower, path.Clean, and the hex-encoded SHA-256 of the
-- JSON that RequestForTask builds from the kind, the canonical target, the work id and the options.
pub record Env : Type 0 where
  pub parse_url : String → Option Url
  pub escaped_path : Url → String
  pub to_lower : String → String
  pub clean : String → String
  pub digest : String → String → ℤ → RequestOptions → String

is_digit : ℕ → Bool
is_digit c = leb b'0' c && leb c b'9'

-- [a-z] under (?i), which Unicode case folding extends by the long s and the Kelvin sign.
is_letter : ℕ → Bool
is_letter c = leb b'a' c && leb c b'z' || leb b'A' c && leb c b'Z' || c == 0x17F || c == 0x212A

-- The longest prefix of characters that pass a test.
span_prefix : (ℕ → Bool) → String → String
span_prefix p String.[] = String.[]
span_prefix p (String.◌∷◌ c s) = if p (code c) then String.◌∷◌ c (span_prefix p s) else String.[]

span_rest : (ℕ → Bool) → String → String
span_rest p String.[] = String.[]
span_rest p (String.◌∷◌ c s) = if p (code c) then span_rest p s else String.◌∷◌ c s

-- The match of (?i)n\d+[a-z]+ at the start of a text.
ncode_here : Char → String → Option String
unfolding is_digit is_letter span_prefix span_rest
ncode_here c s =
    let digits = span_prefix is_digit s in
    let letters = span_prefix is_letter (span_rest is_digit s) in
    if (code c == b'n' || code c == b'N') && (not_empty digits && not_empty letters)
    then some (String.◌∷◌ c (digits ++ letters))
    else none
  where
    not_empty : String → Bool
    not_empty String.[] = false
    not_empty (String.◌∷◌ _ _) = true

-- targetNcodePattern.FindString: the leftmost match.
unfoldable pub find_ncode : String → Option String
unfolding ncode_here
find_ncode String.[] = none
find_ncode (String.◌∷◌ c s) = elim (ncode_here c s) [ some m ↦ some m | none ↦ find_ncode s ]

drop_prefix : String → String → Option String
drop_prefix String.[] s = some s
drop_prefix (String.◌∷◌ c p) String.[] = none
drop_prefix (String.◌∷◌ c p) (String.◌∷◌ d s) = if code c == code d then drop_prefix p s else none

no_newline : String → Bool
no_newline String.[] = true
no_newline (String.◌∷◌ c s) = (if code c == 10 then false else true) && no_newline s

-- (?:/.*)?$
slash_tail : String → Bool
unfolding no_newline
slash_tail String.[] = true
slash_tail (String.◌∷◌ c s) = code c == b'/' && no_newline s

-- The first group of ^/works/(\d+)(?:/.*)?$.
unfoldable pub kakuyomu_work : String → Option String
unfolding drop_prefix is_digit span_prefix span_rest slash_tail
kakuyomu_work path = elim (drop_prefix "/works/" path) [
  | none ↦ none
  | some s ↦ elim (span_prefix is_digit s) [
    | String.[] ↦ none
    | String.◌∷◌ c ds ↦ if slash_tail (span_rest is_digit s) then some (String.◌∷◌ c ds) else none
  ]
]

-- strings.TrimSuffix(target, "/").
unfoldable pub trim_slash : String → String
trim_slash String.[] = String.[]
trim_slash (String.◌∷◌ c String.[]) = if code c == b'/' then String.[] else String.◌∷◌ c String.[]
trim_slash (String.◌∷◌ c (String.◌∷◌ d s)) = String.◌∷◌ c (trim_slash (String.◌∷◌ d s))

module _ (env : Env) where
  -- An absolute URL that neither site's pattern names.
  generic_url : Url → String
  generic_url u =
      "url:"
      ++ (env.to_lower u.scheme
          ++ ("://"
              ++ (env.to_lower u.host ++ env.escaped_path (record u { path = env.clean u.path }))))

  ncode_target : Option String → String → String
  ncode_target (some m) other = "site:syosetu:" ++ env.to_lower m
  ncode_target none other = other

  kakuyomu_target : Option String → String → String
  kakuyomu_target (some w) other = "site:kakuyomu:" ++ w
  kakuyomu_target none other = other

  url_target : Url → String
  unfolding generic_url ncode_target kakuyomu_target
  url_target u =
      let host = env.to_lower u.hostname in
      let kakuyomu =
        if str_eq host "kakuyomu.jp"
        then kakuyomu_target (kakuyomu_work u.path) (generic_url u)
        else generic_url u in
      if str_eq host "ncode.syosetu.com"
      then ncode_target (find_ncode u.path) kakuyomu
      else kakuyomu

  is_absolute : Url → Bool
  is_absolute u =
      (if str_eq u.scheme "" then false else true) && (if str_eq u.host "" then false else true)

  plain_target : String → String
  unfolding ncode_target
  plain_target target =
      ncode_target (find_ncode target) ("url:" ++ env.to_lower (trim_slash target))

  dispatch_target : String → Option Url → String
  unfolding url_target is_absolute plain_target
  dispatch_target target none = plain_target target
  dispatch_target target (some u) = if is_absolute u then url_target u else plain_target target

  unfoldable pub canonical_target : String → String
  unfolding dispatch_target
  canonical_target raw =
      let target = trim_space raw in
      if str_eq target "" then "" else dispatch_target target (env.parse_url target)
