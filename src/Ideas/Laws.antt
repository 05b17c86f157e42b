-- ===== src/Ideas/Laws.antt =====
-- The titles of the ideas that a run adds.
use opm_api.Prelude.{
  ℕ, ◌≤◌, String, false, not, ◌&&◌, ◌||◌, List, [], ◌∷◌, ◌++◌, ◌==◌, ◌≡◌, refl, Dict, arith, eq_iff,
  inl, inr, Bool-cases, count, count-append, contains-count, contains, lookup-insert, insert, map,
  trim_space, if◌then◌else◌,
}
use mathlib.Core.List.{map-append}
use opm_api.Models.{Idea, Ideation, ideation_types}
use opm_api.Roadmaps.{key_of}
use opm_api.Roadmaps.Phases.Laws.{key_of-trim_space}
use opm_api.Ideas.{
  bucket_of, Implemented, Merging, start_merging, is_implemented, merge_idea, merge_bucket,
  merge_ideas,
}

abbrev pub titles : List Idea → List String
titles ideas = map (λ i. key_of i.title) ideas

-- No title stands twice under a type, up to case and blanks around it.
abbrev pub Distinct : Ideation → Type 0
Distinct ideas = (typ a : String) → count a (titles (bucket_of ideas typ)) ≤ 1

-- The keys that are there are known, and each of them once.
abbrev Known : Merging → Type 0
Known m = (a : String) → count a (titles m.bucket) ≤ (if contains m.have a then 1 else 0)

start_merging-Known :
    (bucket : List Idea) (added skipped : ℕ)
    → ((a : String) → count a (titles bucket) ≤ 1)
    → Known (start_merging bucket added skipped)
start_merging-Known bucket added skipped d a = elim (Bool-cases (contains (titles bucket) a)) [
  | inl e ↦ rw e (d a)
  | inr e ↦ rw e (rw (contains-count a (titles bucket) e) (omega arith))
]

module _ (new_id : ℕ → String) (created model : String) (done : Implemented) where
  merge_idea-Known :
      (typ : String) (idea : Idea) (m : Merging)
      → Known m
      → Known (merge_idea new_id created model done typ idea m)
  unfolding merge_idea count contains
  merge_idea-Known typ idea m h a =
      elim (Bool-cases (trim_space idea.title == "" || contains m.have (key_of idea.title))) [
        | inl e ↦ rw (e, merge_idea) (h a)
        | inr e ↦ elim (Bool-cases (is_implemented new_id created model done idea)) [
          | inl k ↦ rw (e, merge_idea) (rw k (h a))
          | inr k ↦ rw (e, merge_idea) (rw k (rw (map-append _ m.bucket _) (appended e)))
        ]
      ]
    where
      appended :
          (trim_space idea.title == "" || contains m.have (key_of idea.title)) ≡ false
          → count a (titles m.bucket ++ key_of (trim_space idea.title) ∷ [])
            ≤ (if contains (key_of idea.title ∷ m.have) a then 1 else 0)
      appended e = rw (key_of-trim_space idea.title) (
          ground (
            arith,
            e,
            h a,
            count-append a (titles m.bucket) (key_of idea.title ∷ []),
            eq_iff (key_of idea.title) a,
            eq_iff a (key_of idea.title),
          ))

  merge_bucket-Known :
      (typ : String) (incoming : List Idea) (m : Merging)
      → Known m
      → Known (merge_bucket new_id created model done typ incoming m)
  unfolding merge_bucket
  merge_bucket-Known typ [] m h = h
  merge_bucket-Known typ (idea ∷ incoming) m h =
      merge_bucket-Known typ incoming (merge_idea new_id created model done typ idea m)
        (merge_idea-Known typ idea m h)

  bucket_of-insert :
      (typ other : String) (bucket : List Idea) (ideas : Ideation)
      → bucket_of (insert typ bucket ideas) other
        ≡ (if typ == other then bucket else bucket_of ideas other)
  unfolding bucket_of
  bucket_of-insert typ other bucket ideas = elim (Bool-cases (typ == other)) [
    | inl e ↦ rw (lookup-insert typ other bucket ideas, bucket_of) (rw e refl)
    | inr e ↦ rw (lookup-insert typ other bucket ideas, bucket_of) (rw e refl)
  ]

  insert-Distinct :
      (typ : String) (bucket : List Idea) (ideas : Ideation)
      → Distinct ideas
      → ((a : String) → count a (titles bucket) ≤ 1)
      → Distinct (insert typ bucket ideas)
  insert-Distinct typ bucket ideas d h other a =
      rw (bucket_of-insert typ other bucket ideas)
        (elim (Bool-cases (typ == other)) [ inl e ↦ rw e (h a) | inr e ↦ rw e (d other a) ])

  -- What a run of the model adds to ideas with distinct titles, under each type, leaves their titles
  -- distinct: a title that is there, in any case and with any blanks around it, is not added again.
  pub merge_ideas-Distinct :
      (only : String) (incoming : Dict (List Idea)) (ideas : Ideation) (added skipped : ℕ)
      → Distinct ideas
      → Distinct (merge_ideas new_id created model done only incoming ideas added skipped).0
  unfolding merge_ideas
  merge_ideas-Distinct only [] ideas added skipped d = d
  merge_ideas-Distinct only ((key, proposed) ∷ rest) ideas added skipped d =
      let typ = trim_space key in
      let start = start_merging (bucket_of ideas typ) added skipped in
      let m = merge_bucket new_id created model done typ proposed start in
      let known =
        merge_bucket-Known typ proposed start
          (start_merging-Known (bucket_of ideas typ) added skipped (d typ)) in
      let once : (a : String) → count a (titles m.bucket) ≤ 1 = λ a. ground (arith, known a) in
      elim (Bool-cases (contains ideation_types typ)) [
        | inr e ↦ rw (e, merge_ideas) (merge_ideas-Distinct only rest ideas added skipped d)
        | inl e ↦ elim (Bool-cases (not (only == "") && not (typ == only))) [
          | inl k ↦
              rw (e, merge_ideas) (rw k (merge_ideas-Distinct only rest ideas added skipped d))
          | inr k ↦
              rw (e, merge_ideas)
                (rw k (
                  merge_ideas-Distinct only rest (insert typ m.bucket ideas) m.added m.skipped
                    (insert-Distinct typ m.bucket ideas d once)))
        ]
      ]
