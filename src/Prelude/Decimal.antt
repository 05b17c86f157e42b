-- ===== src/Prelude/Decimal.antt =====
-- Decimal numbers as `fmt` prints and scans them.
use Prim.Native.Nat.{ℕ, zero, suc, ◌+◌, ◌-◌, ◌*◌, ◌/◌, ◌%◌, ◌≤◌, ◌<◌}
use Prim.Native.Char.{Char, code}
use Prim.Native.String.{String, [], ◌∷◌, char_at}
use mathlib.Core.Path.{◌≡◌, refl, sym, ap, ◌∙◌}
use mathlib.Core.Logic.{inl, inr}
use mathlib.Core.Bool.{Bool, true, ◌&&◌}
use mathlib.Core.Option.{Option, none, some}
use native.Mathlib.Omega.{arith}
use opm_api.Prelude.Tests.{ltb, leb, if◌then◌else◌, Bool-cases, ltb→lt}

unfoldable pub digit : ℕ → Char
digit d = char_at "0123456789" d

abbrev pub is_digit : Char → Bool
is_digit c = leb b'0' (code c) && leb (code c) b'9'

-- The digits of `n` in front of a text, for fuel above `n`.
unfoldable pub show_from : ℕ → ℕ → String → String
unfolding digit
show_from zero n acc = acc
show_from (suc f) n acc =
    let more = show_from f (n / 10) (digit (n % 10) ∷ acc) in
    if ltb n 10 then digit n ∷ acc else more

-- `%d`.
unfoldable pub show : ℕ → String
unfolding show_from
show n = show_from (suc n) n ""

-- `%03d` in front of a text.
unfoldable pub show_padded : ℕ → String → String
show_padded n acc =
    if ltb n 10
    then digit 0 ∷ digit 0 ∷ show_from (suc n) n acc
    else if ltb n 100
    then digit 0 ∷ show_from (suc n) n acc
    else show_from (suc n) n acc

-- The largest `int`.
abbrev pub int_max : ℕ
int_max = 0x7fffffffffffffff

-- The digits at the head of a text, read on from `n`, and what follows them.
unfoldable pub scan_digits : ℕ → String → ℕ × String
scan_digits n [] = (n, [])
scan_digits n (c ∷ s) =
    let more = scan_digits (n * 10 + (code c - b'0')) s in if is_digit c then more else (n, c ∷ s)

-- `%d` after blanks and sign: at least one digit, and a value that an `int` holds.
unfoldable pub scan_number : String → Option (ℕ × String)
scan_number [] = none
scan_number (c ∷ s) =
    let (n, rest) = scan_digits 0 (c ∷ s) in
    if is_digit c && leb n int_max then some (n, rest) else none

pub code-digit : (d : ℕ) → d < 10 → code (digit d) ≡ b'0' + d
unfolding digit
code-digit zero h = refl
code-digit (suc zero) h = refl
code-digit (suc (suc zero)) h = refl
code-digit (suc (suc (suc zero))) h = refl
code-digit (suc (suc (suc (suc zero)))) h = refl
code-digit (suc (suc (suc (suc (suc zero))))) h = refl
code-digit (suc (suc (suc (suc (suc (suc zero)))))) h = refl
code-digit (suc (suc (suc (suc (suc (suc (suc zero))))))) h = refl
code-digit (suc (suc (suc (suc (suc (suc (suc (suc zero)))))))) h = refl
code-digit (suc (suc (suc (suc (suc (suc (suc (suc (suc zero))))))))) h = refl
code-digit (suc (suc (suc (suc (suc (suc (suc (suc (suc (suc d)))))))))) h = absurd (omega arith)

scan_digits-digit :
    (v d : ℕ) (s : String) → d < 10 → scan_digits v (digit d ∷ s) ≡ scan_digits (v * 10 + d) s
unfolding scan_digits
scan_digits-digit v d s h =
    let e : code (digit d) - b'0' ≡ d = omega (arith, code-digit d h) in
    let is : is_digit (digit d) ≡ true = ground (arith, code-digit d h) in
    rw (is, scan_digits) (rw e refl)

-- Reading what was printed gives the number back.
scan_digits-show_from :
    (f n : ℕ) (acc : String) → n < f → scan_digits 0 (show_from f n acc) ≡ scan_digits n acc
unfolding show_from
scan_digits-show_from zero n acc h = absurd (omega arith)
scan_digits-show_from (suc f) n acc h = elim (Bool-cases (ltb n 10)) [
  | inl e ↦
      rw (e, show_from)
        (scan_digits-digit 0 n acc (ltb→lt n 10 e)
          ∙ ap (λ (k : ℕ). scan_digits k acc) (omega arith))
  | inr e ↦
      let big : 10 ≤ n = ground arith in
      rw (e, show_from)
        (scan_digits-show_from f (n / 10) (digit (n % 10) ∷ acc) (omega arith)
          ∙ scan_digits-digit (n / 10) (n % 10) acc (omega arith)
          ∙ ap (λ (k : ℕ). scan_digits k acc) (omega arith))
]

show_from-head :
    (f n : ℕ) (acc : String)
    → (d : ℕ) × (s : String) × (d < 10) × (show_from (suc f) n acc ≡ digit d ∷ s)
unfolding show_from
show_from-head zero n acc = elim (Bool-cases (ltb n 10)) [
  | inl e ↦ (n, acc, ltb→lt n 10 e, rw (e, show_from))
  | inr e ↦ (n % 10, acc, omega arith, rw (e, show_from))
]
show_from-head (suc f) n acc = elim (Bool-cases (ltb n 10)) [
  | inl e ↦ (n, acc, ltb→lt n 10 e, rw (e, show_from))
  | inr e ↦
      let (d, s, lt, r) = show_from-head f (n / 10) (digit (n % 10) ∷ acc) in
      (d, s, lt, rw (e, show_from) r)
]

-- A text with a digit at its head is scanned as its digits.
scan_number_of_digit :
    (d : ℕ) (s : String)
    → d < 10
    → scan_number (digit d ∷ s) ≡ (
        if leb (scan_digits 0 (digit d ∷ s)).0 int_max
        then some (scan_digits 0 (digit d ∷ s))
        else none)
unfolding scan_number
scan_number_of_digit d s h =
    let is : is_digit (digit d) ≡ true = ground (arith, code-digit d h) in rw (is, scan_number) refl

scan_digits-zeros : (s : String) → scan_digits 0 (digit 0 ∷ s) ≡ scan_digits 0 s
scan_digits-zeros s = scan_digits-digit 0 0 s (omega arith)

-- `%d` reads a number that `%03d` printed, if an `int` holds it and no digit follows it.
pub scan_number-show_padded :
    (n : ℕ) (acc : String)
    → n ≤ int_max
    → scan_digits n acc ≡ (n, acc)
    → scan_number (show_padded n acc) ≡ some (n, acc)
unfolding show_padded
scan_number-show_padded n acc h stop = elim (Bool-cases (ltb n 10)) [
  | inl e ↦
      rw (e, show_padded)
        (headed 0 _ (omega arith) (scan_digits-zeros _ ∙ scan_digits-zeros _ ∙ value))
  | inr e ↦ elim (Bool-cases (ltb n 100)) [
    | inl e' ↦ rw (e, show_padded) (rw e' (headed 0 _ (omega arith) (scan_digits-zeros _ ∙ value)))
    | inr e' ↦
        let (d, s, lt, r) = show_from-head n n acc in
        rw (e, show_padded) (rw e' (rw r (headed d s lt (ap (scan_digits 0) (sym r) ∙ value))))
  ]
]
  where
    value : scan_digits 0 (show_from (suc n) n acc) ≡ (n, acc)
    value = scan_digits-show_from (suc n) n acc (omega arith) ∙ stop

    headed :
        (d : ℕ) (s : String)
        → d < 10
        → scan_digits 0 (digit d ∷ s) ≡ (n, acc)
        → scan_number (digit d ∷ s) ≡ some (n, acc)
    headed d s lt q =
        let fits : leb n int_max ≡ true = ground arith in
        scan_number_of_digit d s lt ∙ rw q (rw fits refl)

pub show_padded-head :
    (n : ℕ) (acc : String) → (d : ℕ) × (s : String) × (d < 10) × (show_padded n acc ≡ digit d ∷ s)
unfolding show_padded
show_padded-head n acc = elim (Bool-cases (ltb n 10)) [
  | inl e ↦ (0, digit 0 ∷ show_from (suc n) n acc, omega arith, rw (e, show_padded))
  | inr e ↦ elim (Bool-cases (ltb n 100)) [
    | inl e' ↦ (0, show_from (suc n) n acc, omega arith, rw (e, show_padded) (rw e'))
    | inr e' ↦
        let (d, s, lt, r) = show_from-head n n acc in (d, s, lt, rw (e, show_padded) (rw e' r))
  ]
]
