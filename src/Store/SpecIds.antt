-- ===== src/Store/SpecIds.antt =====
-- `slugify` and `nextSpecID` of store.go: the id of a new task.
pub mod Fresh
use Prim.Native.Char.{Char, code}
use Prim.Native.String.{slice, len}
use opm_api.Prelude.{
  ℕ, zero, suc, ◌+◌, String, Bool, true, false, not, ◌&&◌, ◌||◌, Option, none, some, List, [], ◌∷◌,
  ◌<>◌, ◌==◌, ltb, leb, nat_eq, trim, trim_space, to_lower, is_space, show_padded, scan_number,
  int_max, if◌then◌else◌, map,
}

-- `[a-z0-9]`.
unfoldable pub is_slug_char : Char → Bool
is_slug_char ch = let c = code ch in leb b'a' c && leb c b'z' || leb b'0' c && leb c b'9'

-- `slugRe.ReplaceAllString(s, "-")`, where the flag says that the run before was replaced.
unfoldable pub dash_runs : Bool → String → String
dash_runs in_run String.[] = String.[]
dash_runs in_run (String.◌∷◌ c s) =
    let kept = String.◌∷◌ c (dash_runs false s) in
    let dashed = String.◌∷◌ "-" (dash_runs true s) in
    let dropped = dash_runs true s in
    if is_slug_char c then kept else if in_run then dropped else dashed

abbrev is_dash : Char → Bool
is_dash c = nat_eq (code c) b'-'

unfoldable pub slugify : String → String
slugify title =
    let s = trim is_dash (dash_runs false (to_lower (trim_space title))) in
    let t = if s == "" then "task" else s in
    if ltb 48 (len t) then trim is_dash (slice t 0 48) else t

-- The blanks that `Sscanf` passes over; a newline ends the scan.
unfoldable pub skip_blanks : String → Option String
skip_blanks String.[] = some String.[]
skip_blanks (String.◌∷◌ c s) =
    let more = skip_blanks s in
    if nat_eq (code c) 10 then none else if is_space c then more else some (String.◌∷◌ c s)

abbrev drop_plus : String → String
drop_plus String.[] = String.[]
drop_plus (String.◌∷◌ c s) = if nat_eq (code c) b'+' then s else String.◌∷◌ c s

abbrev starts_with_dash : String → Bool
starts_with_dash String.[] = false
starts_with_dash (String.◌∷◌ c s) = nat_eq (code c) b'-'

-- `fmt.Sscanf(name, "%d-", &n)` without an error, for a number that is not negative. (A negative
-- one is never above the maximum so far, so it counts for as little as an error.)
unfoldable pub spec_number : String → Option ℕ
spec_number name = elim (skip_blanks name) [
  | none ↦ none
  | some s ↦ elim (scan_number (drop_plus s)) [
    | none ↦ none
    | some (n, rest) ↦ if starts_with_dash rest then some n else none
  ]
]

-- The loop for the maximum.
unfoldable pub max_number : ℕ → List String → ℕ
max_number n [] = n
max_number n (name ∷ names) =
    max_number (elim (spec_number name) [ none ↦ n | some k ↦ if ltb n k then k else n ]) names

-- The number behind `maxN+1` wraps around at the end of `int`.
unfoldable pub number_text : ℕ → String → String
number_text max rest =
    if nat_eq max int_max then "-9223372036854775808" <> rest else show_padded (max + 1) rest

unfoldable pub next_spec_id : List String → String → String
next_spec_id names title = number_text (max_number 0 names) (String.◌∷◌ "-" (slugify title))
