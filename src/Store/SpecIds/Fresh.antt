-- ===== src/Store/SpecIds/Fresh.antt =====
-- The id of a new task is not the name of an entry of its directory.
use opm_api.Prelude.{
  ℕ, ◌+◌, ◌≤◌, ◌<◌, String, true, false, none, some, List, [], ◌∷◌, ◌≡◌, refl, ap, sym, ◌∙◌, arith,
  ltb, nat_eq, digit, code-digit, is_space, show_padded, show_padded-head, scan_digits,
  scan_number-show_padded, int_max, contains, inl, inr, if◌then◌else◌, Bool-cases, Option-cases,
  eq-cases,
}
use opm_api.Store.SpecIds.{
  slugify, skip_blanks, spec_number, max_number, number_text, next_spec_id, drop_plus,
}

skip_blanks-digit :
    (d : ℕ) (s : String)
    → d < 10
    → skip_blanks (String.◌∷◌ (digit d) s) ≡ some (String.◌∷◌ (digit d) s)
unfolding skip_blanks is_space
skip_blanks-digit d s h = ground (arith, code-digit d h)

drop_plus-digit :
    (d : ℕ) (s : String) → d < 10 → drop_plus (String.◌∷◌ (digit d) s) ≡ String.◌∷◌ (digit d) s
drop_plus-digit d s h = ground (arith, code-digit d h)

scan_digits-dash : (n : ℕ) (s : String) → scan_digits n (String.◌∷◌ "-" s) ≡ (n, String.◌∷◌ "-" s)
unfolding scan_digits
scan_digits-dash n s = refl

-- The number in front of a printed id is read back.
spec_number-show_padded :
    (n : ℕ) (s : String) → n ≤ int_max → spec_number (show_padded n (String.◌∷◌ "-" s)) ≡ some n
unfolding spec_number
spec_number-show_padded n s h =
    let (d, t, lt, e) = show_padded-head n (String.◌∷◌ "-" s) in
    let scanned = scan_number-show_padded n (String.◌∷◌ "-" s) h (scan_digits-dash n s) in
    rw (e, spec_number)
      (rw (skip_blanks-digit d t lt) (rw (drop_plus-digit d t lt) (rw (← e) (rw scanned refl))))

max_number-ge : (n : ℕ) (names : List String) → n ≤ max_number n names
unfolding max_number
max_number-ge n [] = omega arith
max_number-ge n (x ∷ xs) = elim (Option-cases (spec_number x)) [
  | inl e ↦ rw (e, max_number) (max_number-ge n xs)
  | inr (k, e) ↦ rw (e, max_number) (ground (arith, max_number-ge (if ltb n k then k else n) xs))
]

number-le-max :
    (n : ℕ) (names : List String) (x : String) {k : ℕ}
    → contains names x ≡ true
    → spec_number x ≡ some k
    → k ≤ max_number n names
unfolding contains max_number
number-le-max n [] x h e = cc
number-le-max n (y ∷ ys) x {k} h e = elim (eq-cases x y) [
  | inl same ↦
      let found : spec_number y ≡ some k = ap spec_number (sym same) ∙ e in
      let m : ℕ = if ltb n k then k else n in
      rw (found, max_number) (ground (arith, max_number-ge m ys))
  | inr ne ↦
      number-le-max (elim (spec_number y) [ none ↦ n | some j ↦ if ltb n j then j else n ]) ys x
        (ground arith) e
]

-- The id of a new task is no entry of the directory, as long as the largest number there is below
-- the largest `int`.
pub next_spec_id_fresh :
    (names : List String) (title : String)
    → max_number 0 names < int_max
    → contains names (next_spec_id names title) ≡ false
unfolding next_spec_id number_text
next_spec_id_fresh names title h = elim (Bool-cases (contains names (next_spec_id names title))) [
  | inr e ↦ e
  | inl e ↦ absurd (
      omega (
        arith,
        number-le-max 0 names (next_spec_id names title) {k = max_number 0 names + 1} e (
            rw (room, next_spec_id, number_text)
              (spec_number-show_padded (max_number 0 names + 1) (slugify title) (omega arith))),
      ))
]
  where
    room : nat_eq (max_number 0 names) int_max ≡ false
    room = ground arith
