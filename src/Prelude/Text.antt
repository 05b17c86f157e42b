-- ===== src/Prelude/Text.antt =====
-- The functions of Go's `strings`, `strconv` and `fmt` that the program uses, on texts by characters.
use Prim.Native.Nat.{◌-◌}
use Prim.Native.Char.{Char, code}
use Prim.Native.String.{String, [], ◌∷◌, char_at}
use mathlib.Core.Bool.{Bool, true, false, ◌&&◌, ◌||◌}
use mathlib.Core.Option.{Option, none, some}
use mathlib.Core.List.{List}
use opm_api.Prelude.Letters.{letter_rows}
use text.Mathlib.Text.{◌==◌}
use opm_api.Prelude.Tests.{leb, nat_eq, if◌then◌else◌}

-- `unicode.IsSpace`.
unfoldable pub is_space : Char → Bool
is_space ch =
    let c = code ch in
    leb 9 c && leb c 13
    || nat_eq c 32
    || nat_eq c 0x85
    || nat_eq c 0xa0
    || nat_eq c 0x1680
    || leb 0x2000 c && leb c 0x200a
    || nat_eq c 0x2028
    || nat_eq c 0x2029
    || nat_eq c 0x202f
    || nat_eq c 0x205f
    || nat_eq c 0x3000

unfoldable pub trim_left : (Char → Bool) → String → String
trim_left p [] = []
trim_left p (c ∷ s) = if p c then trim_left p s else c ∷ s

-- `c` in front of what is left of the rest: it goes only if nothing is left behind it.
abbrev pub keep_left : (Char → Bool) → Char → String → String
keep_left p c [] = if p c then [] else c ∷ []
keep_left p c (d ∷ s) = c ∷ d ∷ s

unfoldable pub trim_right : (Char → Bool) → String → String
trim_right p [] = []
trim_right p (c ∷ s) = keep_left p c (trim_right p s)

unfoldable pub trim : (Char → Bool) → String → String
unfolding trim_left trim_right
trim p s = trim_right p (trim_left p s)

-- `strings.TrimSpace`.
unfoldable pub trim_space : String → String
unfolding trim is_space
trim_space = trim is_space

-- The lower case of a letter in a row, if it stands there.
unfoldable pub lower_in_row : String → String → Char → Option Char
lower_in_row [] _ c = none
lower_in_row (u ∷ us) [] c = none
lower_in_row (u ∷ us) (l ∷ ls) c = elim (nat_eq (code c) (code u)) [
  | true ↦ some l
  | false ↦ lower_in_row us ls c
]

unfoldable pub lower_in : List (String × String) → Char → Char
unfolding lower_in_row
lower_in List.[] c = c
lower_in (List.◌∷◌ (us, ls) rows) c = elim (lower_in_row us ls c) [
  | some l ↦ l
  | none ↦ lower_in rows c
]

-- `unicode.ToLower`.
unfoldable pub lower_char : Char → Char
unfolding lower_in letter_rows
lower_char ch =
    let c = code ch in
    elim (leb c 127) [
      | true ↦
          if leb b'A' c && leb c b'Z' then char_at "abcdefghijklmnopqrstuvwxyz" (c - b'A') else ch
      | false ↦ lower_in letter_rows ch
    ]

-- `strings.ToLower`.
unfoldable pub to_lower : String → String
unfolding lower_char
to_lower [] = []
to_lower (c ∷ s) = lower_char c ∷ to_lower s

-- `nz` of helpers.go: the text unless it is blank.
unfoldable pub nz : String → String → String
unfolding trim_space
nz s d = if trim_space s == "" then d else s
