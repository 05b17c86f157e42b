-- ===== src/Prelude/Lists.antt =====
-- Lists measured by native numbers, predicates by recursion, and lists of texts.
use Prim.Native.Nat.{ℕ, suc, ◌+◌}
use Prim.Native.String.{String, ◌++◌ as ◌<>◌}
use mathlib.Core.Path.{◌≡◌, refl}
use mathlib.Core.Logic.{◌≢◌}
use mathlib.Core.Bool.{Bool, true, false, ◌||◌}
use mathlib.Core.Option.{Option, none, some}
use mathlib.Core.List.{List, [], ◌∷◌, ◌++◌}
use native.Mathlib.Omega.{arith}
use text.Mathlib.Text.{◌==◌}
use text.Mathlib.TextEquality.{eq_iff}
use opm_api.Prelude.Tests.{if◌then◌else◌}

abbrev pub All {ℓ κ} : {A : Type ℓ} → (A → Type κ) → List A → Type κ
All P [] = Unit
All P (x ∷ xs) = P x × All P xs

abbrev pub is_empty {ℓ} : {A : Type ℓ} → List A → Bool
is_empty [] = true
is_empty (_ ∷ _) = false

module _ {ℓ} {A : Type ℓ} where
  abbrev pub length : List A → ℕ
  length [] = 0
  length (_ ∷ xs) = suc (length xs)

  pub length-append : (xs ys : List A) → length (xs ++ ys) ≡ length xs + length ys
  length-append [] ys = omega arith
  length-append (x ∷ xs) ys = omega (arith, length-append xs ys)

  -- `find`: the first item that passes.
  unfoldable pub find : (A → Bool) → List A → Option A
  find p [] = none
  find p (x ∷ xs) = if p x then some x else find p xs

-- `strings.Join`.
unfoldable pub join : String → List String → String
join sep [] = ""
join sep (x ∷ []) = x
join sep (x ∷ y ∷ rest) = x <> sep <> join sep (y ∷ rest)

-- How often a text stands in a list.
unfoldable pub count : String → List String → ℕ
count a [] = 0
count a (x ∷ xs) = if x == a then suc (count a xs) else count a xs

unfoldable pub contains : List String → String → Bool
contains [] a = false
contains (x ∷ xs) a = a == x || contains xs a

-- The loop that keeps every item but `a`.
unfoldable pub remove : String → List String → List String
remove a [] = []
remove a (x ∷ xs) = let rest = remove a xs in if x == a then rest else x ∷ rest

pub count-append : (a : String) (xs ys : List String) → count a (xs ++ ys) ≡ count a xs + count a ys
unfolding count
count-append a [] ys = omega arith
count-append a (x ∷ xs) ys = ground (arith, count-append a xs ys)

pub count-remove_self : (a : String) (xs : List String) → count a (remove a xs) ≡ 0
unfolding count remove
count-remove_self a [] = refl
count-remove_self a (x ∷ xs) = ground (arith, count-remove_self a xs)

pub count-remove_ne : (a b : String) (xs : List String) → a ≢ b → count b (remove a xs) ≡ count b xs
unfolding count remove
count-remove_ne a b [] h = refl
count-remove_ne a b (x ∷ xs) h = ground (arith, count-remove_ne a b xs h, eq_iff x a, eq_iff x b)

pub count_single : (a b : String) → count a (b ∷ []) ≡ (if b == a then 1 else 0)
unfolding count
count_single a b = refl

pub contains-count : (a : String) (xs : List String) → contains xs a ≡ false → count a xs ≡ 0
unfolding contains count
contains-count a [] h = refl
contains-count a (x ∷ xs) h = ground (arith, contains-count a xs, eq_iff x a, eq_iff a x)
