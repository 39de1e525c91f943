-- ===== src/Prelude/Texts.antt =====
-- strings.TrimSpace, of Go's standard library.
use Prim.Native.Char.{Char, code}
use Prim.Native.String.{String}
use Prim.Native.Nat.{ℕ, suc}
use mathlib.Core.Bool.{Bool, ◌&&◌, ◌||◌}
use narou_viewer.Prelude.Tests.{leb, ◌==◌, if◌then◌else◌}

-- unicode.IsSpace.
unfoldable pub is_space : ℕ → Bool
is_space c =
    leb 9 c && leb c 13
    || c == 32
    || c == 0x85
    || c == 0xA0
    || c == 0x1680
    || leb 0x2000 c && leb c 0x200A
    || c == 0x2028
    || c == 0x2029
    || c == 0x202F
    || c == 0x205F
    || c == 0x3000

unfoldable pub trim_left : String → String
unfolding is_space
trim_left String.[] = String.[]
trim_left (String.◌∷◌ c s) = if is_space (code c) then trim_left s else String.◌∷◌ c s

unfoldable pub cons_trimmed : Char → String → String
unfolding is_space
cons_trimmed c String.[] = if is_space (code c) then String.[] else String.◌∷◌ c String.[]
cons_trimmed c (String.◌∷◌ d s) = String.◌∷◌ c (String.◌∷◌ d s)

unfoldable pub trim_right : String → String
unfolding cons_trimmed
trim_right String.[] = String.[]
trim_right (String.◌∷◌ c s) = cons_trimmed c (trim_right s)

-- strings.TrimSpace.
unfoldable pub trim_space : String → String
unfolding trim_left trim_right
trim_space s = trim_right (trim_left s)

-- utf8.RuneCountInString.
unfoldable pub text_length : String → ℕ
text_length String.[] = 0
text_length (String.◌∷◌ c s) = suc (text_length s)
