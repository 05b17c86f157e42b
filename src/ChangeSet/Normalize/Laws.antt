-- ===== src/ChangeSet/Normalize/Laws.antt =====
-- What the cleaning of a runner's entries keeps and drops.
use opm_api.Prelude.{
  String, Bool, true, false, not, ◌&&◌, none, some, List, [], ◌∷◌, ◌==◌, ◌≡◌, refl, ◌≤◌, ◌+◌,
  contains, count, find, length, map, arith, eq_iff, if◌then◌else◌, Option-cases, inl, inr,
}
use opm_api.ChangeSet.Types.{FileChange}
use opm_api.ChangeSet.Normalize.{
  mode, trimmed, drop_reason, normalize_from, normalize_change_set, paths,
}

-- An entry that has a path and a change.
unfoldable pub is_usable : FileChange → Bool
is_usable f = not (f.path == "") && not (mode f == "empty")

abbrev pub is_at : String → FileChange → Bool
is_at p f = f.path == p

kept-drop :
    (seen : List String) (f : FileChange)
    → drop_reason seen f ≡ none
    → (is_usable f ≡ true) × (contains seen f.path ≡ false)
unfolding drop_reason is_usable
kept-drop seen f h = ground arith

why-drop :
    (seen : List String) (f : FileChange) {why : String}
    → drop_reason seen f ≡ some why
    → (is_usable f && not (contains seen f.path)) ≡ false
unfolding drop_reason is_usable
why-drop seen f h = ground arith

module _ (p : String) where
  normalize_from-count :
      (seen : List String) (fs : List FileChange)
      → count p (paths (normalize_from seen fs).0) ≤ (if contains seen p then 0 else 1)
  unfolding normalize_from count contains
  normalize_from-count seen [] = ground arith
  normalize_from-count seen (f ∷ fs) = elim (Option-cases (drop_reason seen (trimmed f))) [
    | inr (why, e) ↦ rw (e, normalize_from) (normalize_from-count seen fs)
    | inl e ↦
        rw (e, normalize_from)
          (ground (
            arith,
            kept-drop seen (trimmed f) e,
            normalize_from-count ((trimmed f).path ∷ seen) fs,
            eq_iff p (trimmed f).path,
            eq_iff (trimmed f).path p,
          ))
  ]

  normalize_from-find :
      (seen : List String) (fs : List FileChange)
      → find (is_at p) (normalize_from seen fs).0
        ≡ (if contains seen p then none else find (λ f. is_usable f && is_at p f) (map trimmed fs))
  unfolding normalize_from find contains
  normalize_from-find seen [] = ground arith
  normalize_from-find seen (f ∷ fs) = elim (Option-cases (drop_reason seen (trimmed f))) [
    | inr (why, e) ↦
        rw (e, normalize_from)
          (ground (
            arith,
            why-drop seen (trimmed f) e,
            normalize_from-find seen fs,
            eq_iff (trimmed f).path p,
          ))
    | inl e ↦
        rw (e, normalize_from)
          (ground (
            arith,
            kept-drop seen (trimmed f) e,
            normalize_from-find ((trimmed f).path ∷ seen) fs,
            eq_iff p (trimmed f).path,
            eq_iff (trimmed f).path p,
          ))
  ]

normalize_from-length :
    (seen : List String) (fs : List FileChange)
    → let out = normalize_from seen fs in length out.0 + length out.1 ≡ length fs
unfolding normalize_from
normalize_from-length seen [] = refl
normalize_from-length seen (f ∷ fs) = elim (Option-cases (drop_reason seen (trimmed f))) [
  | inr (why, e) ↦ rw (e, normalize_from) (ground (arith, normalize_from-length seen fs))
  | inl e ↦
      rw (e, normalize_from) (ground (arith, normalize_from-length ((trimmed f).path ∷ seen) fs))
]

-- Every entry is kept or reported, no path is kept twice, and what is kept at a path is the first
-- entry with that path, trimmed, that has a change.
pub normalize_change_set-first_usable :
    (fs : List FileChange) (p : String)
    → let (kept, dropped) = normalize_change_set fs in
      (length kept + length dropped ≡ length fs)
      × (count p (paths kept) ≤ 1)
      × (find (is_at p) kept ≡ find (λ f. is_usable f && is_at p f) (map trimmed fs))
unfolding normalize_change_set contains
normalize_change_set-first_usable fs p =
    (normalize_from-length [] fs, normalize_from-count p [] fs, normalize_from-find p [] fs)
