-- ===== src/Prelude/Trimming.antt =====
-- What is left of a text after trimming: neither its first nor its last character is one of those
-- that go, so a second trimming takes nothing.
use Prim.Native.Nat.{suc, ◌≤◌}
use Prim.Native.Char.{Char}
use Prim.Native.String.{String, [], ◌∷◌}
use mathlib.Core.Path.{◌≡◌, refl, ap, ◌∙◌}
use mathlib.Core.Logic.{inl, inr}
use mathlib.Core.Bool.{Bool, false}
use native.Mathlib.Omega.{arith}
use opm_api.Prelude.Tests.{Bool-cases}
use opm_api.Prelude.Text.{trim_left, trim_right, keep_left, trim, trim_space, is_space}
use opm_api.Prelude.Strings.{chars}

module _ (p : Char → Bool) where
  abbrev pub first_is : String → Bool
  first_is [] = false
  first_is (c ∷ s) = p c

  abbrev pub last_is : String → Bool
  last_is [] = false
  last_is (c ∷ []) = p c
  last_is (c ∷ d ∷ s) = last_is (d ∷ s)

  pub first-trim_left : (s : String) → first_is (trim_left p s) ≡ false
  unfolding trim_left
  first-trim_left [] = refl
  first-trim_left (c ∷ s) = ground (arith, first-trim_left s)

  pub first-trim_right : (s : String) → first_is s ≡ false → first_is (trim_right p s) ≡ false
  unfolding trim_right
  first-trim_right [] h = refl
  first-trim_right (c ∷ s) h = go (trim_right p s)
    where
      go : (t : String) → first_is (keep_left p c t) ≡ false
      go [] = elim (Bool-cases (p c)) [ inl e ↦ rw e refl | inr e ↦ rw e h ]
      go (d ∷ t) = h

  pub last-trim_right : (s : String) → last_is (trim_right p s) ≡ false
  unfolding trim_right
  last-trim_right [] = refl
  last-trim_right (c ∷ s) = go (trim_right p s) (last-trim_right s)
    where
      go : (t : String) → last_is t ≡ false → last_is (keep_left p c t) ≡ false
      go [] k = elim (Bool-cases (p c)) [ inl e ↦ rw e refl | inr e ↦ rw e e ]
      go (d ∷ t) k = k

  pub chars-trim_left : (s : String) → chars (trim_left p s) ≤ chars s
  unfolding trim_left chars
  chars-trim_left [] = omega arith
  chars-trim_left (c ∷ s) = ground (arith, chars-trim_left s)

  pub chars-trim_right : (s : String) → chars (trim_right p s) ≤ chars s
  unfolding trim_right chars
  chars-trim_right [] = omega arith
  chars-trim_right (c ∷ s) = go (trim_right p s) (chars-trim_right s)
    where
      go : (t : String) → chars t ≤ chars s → chars (keep_left p c t) ≤ suc (chars s)
      go [] k = elim (Bool-cases (p c)) [ inl e ↦ rw e (omega arith) | inr e ↦ rw e (omega arith) ]
      go (d ∷ t) k = omega arith

  trim_left-fixed : (s : String) → first_is s ≡ false → trim_left p s ≡ s
  unfolding trim_left
  trim_left-fixed [] h = refl
  trim_left-fixed (c ∷ s) h = rw h refl

  trim_right-fixed : (s : String) → last_is s ≡ false → trim_right p s ≡ s
  unfolding trim_right
  trim_right-fixed [] h = refl
  trim_right-fixed (c ∷ []) h = rw h refl
  trim_right-fixed (c ∷ d ∷ s) h = rw (trim_right-fixed (d ∷ s) h) refl

  trim-trim : (s : String) → trim p (trim p s) ≡ trim p s
  unfolding trim
  trim-trim s =
      let t = trim_right p (trim_left p s) in
      ap (trim_right p) (trim_left-fixed t (first-trim_right (trim_left p s) (first-trim_left s)))
      ∙ trim_right-fixed t (last-trim_right (trim_left p s))

pub trim_space-trim_space : (s : String) → trim_space (trim_space s) ≡ trim_space s
unfolding trim_space
trim_space-trim_space s = trim-trim is_space s
