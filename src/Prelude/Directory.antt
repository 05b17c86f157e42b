-- ===== src/Prelude/Directory.antt =====
-- A directory: its entries under their names, in the order of names in which `os.ReadDir` lists
-- them. Also a Go map that is never walked, as a function.
use Prim.Native.String.{String, compare}
use mathlib.Core.Path.{◌≡◌}
use mathlib.Core.Option.{Option, none, some}
use mathlib.Core.List.{List, [], ◌∷◌}
use native.Mathlib.Omega.{arith}
use text.Mathlib.Text.{◌==◌, is_lt}
use text.Mathlib.TextEquality.{eq_iff}
use opm_api.Prelude.Tests.{if◌then◌else◌}

abbrev pub Dict {ℓ} : Type ℓ → Type ℓ
Dict V = List (String × V)

module _ {ℓ} {V : Type ℓ} where
  unfoldable pub lookup : String → Dict V → Option V
  lookup name [] = none
  lookup name ((first, file) ∷ rest) = if name == first then some file else lookup name rest

  unfoldable pub insert : String → V → Dict V → Dict V
  insert name file [] = (name, file) ∷ []
  insert name file ((first, old) ∷ rest) =
      let later = insert name file rest in
      if is_lt (compare name first)
      then (name, file) ∷ (first, old) ∷ rest
      else if name == first
      then (name, file) ∷ rest
      else (first, old) ∷ later

  unfoldable pub delete : String → Dict V → Dict V
  delete name [] = []
  delete name ((first, file) ∷ rest) =
      let later = delete name rest in if name == first then later else (first, file) ∷ later

  -- Only the name itself is read differently after a write.
  pub lookup-insert :
      (name other : String) (file : V) (entries : Dict V)
      → lookup other (insert name file entries)
        ≡ (if name == other then some file else lookup other entries)
  unfolding insert lookup
  lookup-insert name other file [] = ground (arith, eq_iff name other, eq_iff other name)
  lookup-insert name other file ((first, old) ∷ rest) = ground (
    arith,
    lookup-insert name other file rest,
    eq_iff other name,
    eq_iff name other,
    eq_iff name first,
    eq_iff other first,
  )

  pub lookup-delete :
      (name other : String) (entries : Dict V)
      → lookup other (delete name entries) ≡ (if name == other then none else lookup other entries)
  unfolding delete lookup
  lookup-delete name other [] = ground arith
  lookup-delete name other ((first, file) ∷ rest) = ground (
    arith,
    lookup-delete name other rest,
    eq_iff other name,
    eq_iff name other,
    eq_iff name first,
    eq_iff other first,
  )

  -- A Go map from texts, where only reads and writes at a key are used.
  unfoldable pub update : (String → V) → String → V → String → V
  update m k v j = if k == j then v else m j
