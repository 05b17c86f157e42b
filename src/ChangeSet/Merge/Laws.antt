-- ===== src/ChangeSet/Merge/Laws.antt =====
-- The merge of two change sets, read as maps from paths to entries.
use opm_api.Prelude.{
  String, true, ◌||◌, Option, none, some, List, [], ◌∷◌, ◌++◌, ◌==◌, ◌≡◌, refl, ◌∙◌, ◌≤◌, ◌+◌,
  contains, contains-count, count, count-append, update, map, arith, eq_iff, eq_refl, if◌then◌else◌,
  Bool-cases, Option-cases, inl, inr,
}
use opm_api.ChangeSet.Types.{FileChange}
use opm_api.ChangeSet.Normalize.{paths}
use opm_api.ChangeSet.Merge.{ByPath, no_file, index_base, index_delta, merge_files}

abbrev or_else : Option FileChange → Option FileChange → Option FileChange
or_else none other = other
or_else (some f) other = some f

-- The last entry with the path.
unfoldable pub last_at : List FileChange → ByPath
last_at [] p = none
last_at (f ∷ fs) p = or_else (last_at fs p) (if f.path == p then some f else none)

-- What a merge promises: the entry of `delta` where it has one, else that of `base`.
unfoldable pub overridden : ByPath → ByPath → ByPath
overridden base delta p = or_else (delta p) (base p)

-- The map and the list of paths that the loops keep agree.
record IsIndexed (by : ByPath) (order : List String) : Type 0 where
  named : (p : String) (f : FileChange) → by p ≡ some f → f.path ≡ p
  listed : (p : String) (f : FileChange) → by p ≡ some f → contains order p ≡ true
  present : (p : String) → contains order p ≡ true → (f : FileChange) × (by p ≡ some f)

abbrev stored : ByPath → FileChange → ByPath
stored by f = update by f.path (some f)

contains-snoc :
    (p q : String) (xs : List String) → contains (xs ++ q ∷ []) p ≡ (contains xs p || p == q)
unfolding contains
contains-snoc p q [] = ground arith
contains-snoc p q (x ∷ xs) = ground (arith, contains-snoc p q xs)

stored-cases :
    (by : ByPath) (f : FileChange) (p : String)
    → stored by f p ≡ (if f.path == p then some f else by p)
unfolding update
stored-cases by f p = refl

index_base-map :
    (fs : List FileChange) (by : ByPath) (order : List String) (p : String)
    → (index_base by order fs).0 p ≡ or_else (last_at fs p) (by p)
unfolding index_base last_at update
index_base-map [] by order p = refl
index_base-map (f ∷ fs) by order p =
    ground (arith, index_base-map fs (stored by f) (order ++ f.path ∷ []) p, stored-cases by f p)

index_delta-map :
    (fs : List FileChange) (by : ByPath) (order : List String) (p : String)
    → (index_delta by order fs).0 p ≡ or_else (last_at fs p) (by p)
unfolding index_delta last_at update
index_delta-map [] by order p = refl
index_delta-map (f ∷ fs) by order p = ground (
  arith,
  index_delta-map fs (stored by f)
      (elim (by f.path) [ none ↦ order ++ f.path ∷ [] | some _ ↦ order ]) p,
  stored-cases by f p,
)

-- A file that is stored under its path, which is listed.
stored-IsIndexed :
    (by : ByPath) (order order' : List String) (f : FileChange)
    → IsIndexed by order
    → ((p : String) → contains order' p ≡ (contains order p || p == f.path))
    → IsIndexed (stored by f) order'
stored-IsIndexed by order order' f ix adds = record {
  named = λ p g h. ground (arith, stored-cases by f p, eq_iff f.path p, ix.named p g);
  listed = λ p g h.
      ground (arith, stored-cases by f p, eq_iff f.path p, eq_iff p f.path, ix.listed p g, adds p);
  present = λ p h. elim (Bool-cases (f.path == p)) [
    | inl e ↦ (f, stored-cases by f p ∙ rw e)
    | inr e ↦
        let (g, k) = ix.present p (ground (arith, adds p, eq_iff f.path p, eq_iff p f.path)) in
        (g, stored-cases by f p ∙ rw e k)
  ];
}

index_base-IsIndexed :
    (fs : List FileChange) (by : ByPath) (order : List String)
    → IsIndexed by order
    → let out = index_base by order fs in IsIndexed out.0 out.1
unfolding index_base
index_base-IsIndexed [] by order ix = ix
index_base-IsIndexed (f ∷ fs) by order ix =
    index_base-IsIndexed fs (stored by f) (order ++ f.path ∷ [])
      (stored-IsIndexed by order (order ++ f.path ∷ []) f ix (λ p. contains-snoc p f.path order))

index_delta-IsIndexed :
    (fs : List FileChange) (by : ByPath) (order : List String)
    → IsIndexed by order
    → let out = index_delta by order fs in IsIndexed out.0 out.1
unfolding index_delta
index_delta-IsIndexed [] by order ix = ix
index_delta-IsIndexed (f ∷ fs) by order ix = elim (Option-cases (by f.path)) [
  | inl e ↦
      rw (e, index_delta)
        (index_delta-IsIndexed fs (stored by f) (order ++ f.path ∷ []) (
          stored-IsIndexed by order (order ++ f.path ∷ []) f ix
            (λ p. contains-snoc p f.path order)))
  | inr (g, e) ↦
      rw (e, index_delta)
        (index_delta-IsIndexed fs (stored by f) order (
          stored-IsIndexed by order order f ix
            (λ p. ground (arith, ix.listed f.path g e, eq_iff p f.path))))
]

-- The listed entries, read back as a map.
last_at-listed :
    (by : ByPath) (order : List String) (p : String)
    → ((q : String) → contains order q ≡ true → (f : FileChange) × (by q ≡ some f))
    → ((q : String) (f : FileChange) → by q ≡ some f → f.path ≡ q)
    → last_at (map (λ q. elim (by q) [ none ↦ no_file | some f ↦ f ]) order) p
      ≡ (if contains order p then by p else none)
unfolding last_at contains
last_at-listed by [] p present named = refl
last_at-listed by (q ∷ qs) p present named =
    let (f, e) = present q (ground (arith, eq_refl q)) in
    rw e (
      ground (
        arith,
        last_at-listed by qs p (λ r h. present r (ground arith)) named,
        named q f e,
        e,
        eq_iff f.path p,
        eq_iff p q,
        eq_iff q p,
      ))

empty-IsIndexed : IsIndexed (λ _. none) []
unfolding contains
empty-IsIndexed = record {
  named = λ p f h. absurd (ground arith);
  listed = λ p f h. absurd (ground arith);
  present = λ p h. absurd (ground arith);
}

-- The merged files, as a map from paths, are those of the base overridden by those of the delta.
pub merge_files-overridden :
    (base delta : List FileChange) (p : String)
    → last_at (merge_files base delta) p ≡ overridden (last_at base) (last_at delta) p
unfolding merge_files overridden
merge_files-overridden base delta p =
    let (by, order) = index_base (λ _. none) [] base in
    let ix = index_base-IsIndexed base (λ _. none) [] empty-IsIndexed in
    let (by', order') = index_delta by order delta in
    let ix' = index_delta-IsIndexed delta by order ix in
    let read = last_at-listed by' order' p ix'.present ix'.named in
    let same = index_delta-map delta by order p in
    let first = index_base-map base (λ _. none) [] p in
    elim (Option-cases (by' p)) [
      | inl e ↦ ground (arith, read, same, first, e)
      | inr (f, e) ↦ ground (arith, read, same, first, ix'.listed p f e, e)
    ]

index_base-order :
    (fs : List FileChange) (by : ByPath) (order : List String) (p : String)
    → count p (index_base by order fs).1 ≡ count p order + count p (paths fs)
unfolding index_base count
index_base-order [] by order p = ground arith
index_base-order (f ∷ fs) by order p = ground (
  arith,
  index_base-order fs (stored by f) (order ++ f.path ∷ []) p,
  count-append p order (f.path ∷ []),
)

-- A path that is listed stays so, and one that is not is listed at most once.
index_delta-order :
    (fs : List FileChange) (by : ByPath) (order : List String) (p : String)
    → ((q : String) → by q ≡ none → count q order ≡ 0)
    → count p order ≤ 1
    → count p (index_delta by order fs).1 ≤ 1
unfolding index_delta count
index_delta-order [] by order p fresh h = h
index_delta-order (f ∷ fs) by order p fresh h = elim (Option-cases (by f.path)) [
  | inl e ↦
      rw (e, index_delta)
        (index_delta-order fs (stored by f) (order ++ f.path ∷ []) p
          (λ q n. ground (
            arith,
            stored-cases by f q,
            fresh q,
            count-append q order (f.path ∷ []),
            eq_iff f.path q,
          ))
          (ground (arith, fresh f.path e, count-append p order (f.path ∷ []), eq_iff f.path p)))
  | inr (g, e) ↦
      rw (e, index_delta)
        (index_delta-order fs (stored by f) order p
          (λ q n. ground (arith, stored-cases by f q, fresh q)) h)
]

paths-listed :
    (by : ByPath) (order : List String)
    → ((q : String) → contains order q ≡ true → (f : FileChange) × (by q ≡ some f))
    → ((q : String) (f : FileChange) → by q ≡ some f → f.path ≡ q)
    → paths (map (λ q. elim (by q) [ none ↦ no_file | some f ↦ f ]) order) ≡ order
unfolding contains
paths-listed by [] present named = refl
paths-listed by (q ∷ qs) present named =
    let (f, e) = present q (ground (arith, eq_refl q)) in
    rw (e, named q f e, paths-listed by qs (λ r h. present r (ground arith)) named)

-- Where no path stands twice in the base, none stands twice in the merge, whatever the delta.
merge_files-no_duplicates :
    (base delta : List FileChange)
    → ((p : String) → count p (paths base) ≤ 1)
    → (p : String) → count p (paths (merge_files base delta)) ≤ 1
unfolding merge_files count
merge_files-no_duplicates base delta h p =
    let (by, order) = index_base (λ _. none) [] base in
    let ix = index_base-IsIndexed base (λ _. none) [] empty-IsIndexed in
    let (by', order') = index_delta by order delta in
    let ix' = index_delta-IsIndexed delta by order ix in
    rw (paths-listed by' order' ix'.present ix'.named) (
      index_delta-order delta by order p
        (λ q n. contains-count q order (elim (Bool-cases (contains order q)) [
          | inl c ↦ let (f, e) = ix.present q c in absurd (ground arith)
          | inr c ↦ c
        ]))
        (ground (arith, index_base-order base (λ _. none) [] p, h p)))
