-- ===== src/Prelude/Strings.antt =====
-- More of Go's `strings`: prefixes, substrings, splitting and replacing, by characters.
use Prim.Native.Nat.{ℕ, zero, suc, ◌-◌}
use Prim.Native.Char.{Char, code}
use Prim.Native.String.{String, [], ◌∷◌, ◌++◌, len, slice}
use mathlib.Core.Bool.{Bool, true, false, ◌&&◌, ◌||◌}
use mathlib.Core.List.{List, [] as nil, ◌∷◌ as ◌◂◌}
use text.Mathlib.Text.{◌==◌}
use opm_api.Prelude.Tests.{leb, nat_eq, if◌then◌else◌}

-- The number of characters.
unfoldable pub chars : String → ℕ
chars [] = 0
chars (c ∷ s) = suc (chars s)

-- `strings.HasPrefix(s, p)`.
unfoldable pub has_prefix : String → String → Bool
has_prefix s [] = true
has_prefix [] (d ∷ p) = false
has_prefix (c ∷ s) (d ∷ p) = nat_eq (code c) (code d) && has_prefix s p

-- The text without its first characters.
unfoldable pub drop_chars : ℕ → String → String
drop_chars zero s = s
drop_chars (suc n) [] = []
drop_chars (suc n) (c ∷ s) = drop_chars n s

-- `strings.TrimPrefix(s, p)`.
unfoldable pub trim_prefix : String → String → String
unfolding has_prefix drop_chars
trim_prefix s p = if has_prefix s p then drop_chars (chars p) s else s

-- `strings.TrimSuffix(s, p)` for a `p` that is not empty.
unfoldable pub trim_suffix : String → String → String
trim_suffix [] p = []
trim_suffix (c ∷ s) p = if (c ∷ s) == p then [] else c ∷ trim_suffix s p

-- `strings.Contains(s, sub)`.
unfoldable pub contains_text : String → String → Bool
contains_text [] sub = sub == []
contains_text (c ∷ s) sub = has_prefix (c ∷ s) sub || contains_text s sub

abbrev pub onto_first : Char → List String → List String
onto_first c nil = (c ∷ []) ◂ nil
onto_first c (x ◂ xs) = (c ∷ x) ◂ xs

-- `strings.Split(s, sep)` for a separator of one character.
unfoldable pub split : String → Char → List String
split [] sep = [] ◂ nil
split (c ∷ s) sep =
    let rest = split s sep in if nat_eq (code c) (code sep) then [] ◂ rest else onto_first c rest

-- The scan of `strings.ReplaceAll` for a text that is not empty: `skip` characters of the last match
-- are still to go.
unfoldable pub replace_from : ℕ → String → String → String → String
replace_from skip [] old new = []
replace_from (suc n) (c ∷ s) old new = replace_from n s old new
replace_from zero (c ∷ s) old new =
    let after = replace_from (chars old - 1) s old new in
    let next = replace_from zero s old new in
    if has_prefix (c ∷ s) old then new ++ after else c ∷ next

unfoldable pub between_all : String → String → String
between_all [] new = new
between_all (c ∷ s) new = new ++ c ∷ between_all s new

-- `strings.ReplaceAll(s, old, new)`.
unfoldable pub replace_all : String → String → String → String
unfolding replace_from between_all
replace_all s old new = if old == [] then between_all s new else replace_from zero s old new

-- `strings.Replace(s, old, new, 1)`, for an `old` that is not empty.
unfoldable pub replace_first : String → String → String → String
replace_first [] old new = []
replace_first (c ∷ s) old new =
    let next = replace_first s old new in
    if has_prefix (c ∷ s) old then new ++ drop_chars (chars old) (c ∷ s) else c ∷ next

-- `truncate`, of the bytes of UTF-8; a character that the cut would split goes whole.
unfoldable pub truncate : String → ℕ → String
truncate s n = if leb (len s) n then s else slice s 0 n ++ "…"

-- The first characters of a text.
unfoldable pub take_chars : ℕ → String → String
take_chars zero s = []
take_chars (suc n) [] = []
take_chars (suc n) (c ∷ s) = c ∷ take_chars n s

-- `truncateRunes`.
unfoldable pub truncate_runes : String → ℕ → String
unfolding chars take_chars
truncate_runes s n = if leb (chars s) n then s else take_chars n s ++ "…"
