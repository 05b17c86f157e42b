-- ===== src/Roadmaps/Features/Laws.antt =====
-- The features of a run and the validation of a roadmap.
use opm_api.Prelude.{
  Bool, not, ◌&&◌, ℕ, ◌+◌, String, true, false, ◌||◌, none, some, List, [], ◌∷◌, ◌++◌, ◌==◌, ◌≡◌,
  refl, ap, ◌∙◌, arith, is_empty, contains, lookup, lookup-delete, trim_space, to_lower, eq_iff,
  eq_refl, Bool-cases, Option-cases, inl, inr, if◌then◌else◌,
}
use opm_api.Models.{RoadmapPhase, RoadmapFeature, Roadmap}
use opm_api.Results.{RunnerResult}
use opm_api.Roadmaps.{key_of, first_unnamed, is_known, is_dangling, dangling, validate_roadmap_json}
use opm_api.Roadmaps.Phases.{or_default}
use opm_api.Roadmaps.Features.{
  has_id, id_by_name, resolve_phase, list_under, Adding, new_feature, add_feature, add_features,
  metadata_after, first_id, start_adding, featured,
}

-- Listing a feature under a phase changes no phase's id and no name.

has_id-list_under :
    (id phase_id fid : String) (ps : List RoadmapPhase)
    → has_id id (list_under phase_id fid ps) ≡ has_id id ps
unfolding has_id list_under
has_id-list_under id phase_id fid [] = refl
has_id-list_under id phase_id fid (p ∷ ps) = elim (Bool-cases (p.id == phase_id)) [
  | inl e ↦ rw (e, list_under) refl
  | inr e ↦ rw (e, list_under) (ap (λ b. p.id == id || b) (has_id-list_under id phase_id fid ps))
]

is_known-list_under :
    (pid phase_id fid : String) (ps : List RoadmapPhase)
    → is_known pid (list_under phase_id fid ps) ≡ is_known pid ps
unfolding is_known list_under
is_known-list_under pid phase_id fid [] = refl
is_known-list_under pid phase_id fid (p ∷ ps) = elim (Bool-cases (p.id == phase_id)) [
  | inl e ↦ rw (e, list_under) refl
  | inr e ↦
      rw (e, list_under)
        (ap (λ b. if trim_space p.id == pid then true else b)
          (is_known-list_under pid phase_id fid ps))
]

first_unnamed-list_under :
    (i : ℕ) (phase_id fid : String) (ps : List RoadmapPhase)
    → first_unnamed i (list_under phase_id fid ps) ≡ first_unnamed i ps
unfolding first_unnamed list_under
first_unnamed-list_under i phase_id fid [] = refl
first_unnamed-list_under i phase_id fid (p ∷ ps) = elim (Bool-cases (p.id == phase_id)) [
  | inl e ↦ rw (e, list_under) refl
  | inr e ↦
      rw (e, list_under)
        (ap (λ later. if trim_space p.name == "" then some i else later)
          (first_unnamed-list_under (i + 1) phase_id fid ps))
]

dangling-list_under :
    (phase_id fid : String) (ps : List RoadmapPhase) (fs : List RoadmapFeature)
    → dangling (list_under phase_id fid ps) fs ≡ dangling ps fs
unfolding dangling is_dangling
dangling-list_under phase_id fid ps [] = refl
dangling-list_under phase_id fid ps (f ∷ fs) =
    rw
      (
        is_known-list_under (trim_space f.phase_id) phase_id fid ps,
        dangling-list_under phase_id fid ps fs,
      )
      refl

dangling-append :
    (ps : List RoadmapPhase) (fs : List RoadmapFeature) (f : RoadmapFeature)
    → dangling ps fs ≡ []
    → is_dangling ps f ≡ false
    → dangling ps (fs ++ f ∷ []) ≡ []
unfolding dangling
dangling-append ps [] f h k = rw k refl
dangling-append ps (g ∷ fs) f h k = elim (Bool-cases (is_dangling ps g)) [
  | inl e ↦ absurd (ground (arith, rw (e, dangling) at h))
  | inr e ↦ rw (e, dangling) (dangling-append ps fs f (rw (e, dangling) at h) k)
]

-- The id that is found for a proposal is that of a phase.

id_by_name-has_id :
    (name : String) (ps : List RoadmapPhase) {id : String}
    → id_by_name name ps ≡ some id
    → has_id id ps ≡ true
unfolding id_by_name has_id
id_by_name-has_id name [] h = absurd (ground (arith, h))
id_by_name-has_id name (p ∷ ps) {id} h = elim (Option-cases (id_by_name name ps)) [
  | inr (x, e) ↦
      let same : x ≡ id = ground (arith, rw (e, id_by_name) at h) in
      ground (arith, id_by_name-has_id name ps (e ∙ ap (λ y. some y) same))
  | inl e ↦ elim (Bool-cases (key_of p.name == name)) [
    | inl k ↦ ground (arith, rw k at (rw (e, id_by_name) at h), eq_iff p.id id)
    | inr k ↦ absurd (ground (arith, rw k at (rw (e, id_by_name) at h)))
  ]
]

or_default-has_id :
    (first id : String) (ps : List RoadmapPhase)
    → has_id first ps ≡ true
    → has_id id ps ≡ true
    → has_id (or_default id first) ps ≡ true
or_default-has_id first id ps h k = elim (Bool-cases (id == "")) [ inl e ↦ rw e h | inr e ↦ rw e k ]

resolve_phase-has_id :
    (first : String) (ps : List RoadmapPhase) (wanted : String)
    → has_id first ps ≡ true
    → has_id (resolve_phase first ps wanted) ps ≡ true
unfolding resolve_phase
resolve_phase-has_id first ps wanted h = elim (Bool-cases (wanted == "")) [
  | inl e ↦ rw (e, resolve_phase) h
  | inr e ↦ elim (Bool-cases (has_id wanted ps)) [
    | inl k ↦ rw (e, resolve_phase) (rw k k)
    | inr k ↦ elim (Option-cases (id_by_name (to_lower wanted) ps)) [
      | inl n ↦ rw (e, resolve_phase) (rw (k, n) (or_default-has_id first first ps h h))
      | inr (id, n) ↦
          rw (e, resolve_phase)
            (rw (k, n) (or_default-has_id first id ps h (id_by_name-has_id (to_lower wanted) ps n)))
    ]
  ]
]

has_id-is_known :
    (id : String) (ps : List RoadmapPhase)
    → has_id id ps ≡ true
    → is_known (trim_space id) ps ≡ true
unfolding has_id is_known
has_id-is_known id [] h = absurd (ground (arith, h))
has_id-is_known id (p ∷ ps) h = elim (Bool-cases (p.id == id)) [
  | inl e ↦
      let same : p.id ≡ id = (eq_iff p.id id).0 e in rw same (rw (eq_refl (trim_space id)) refl)
  | inr e ↦ ground (arith, has_id-is_known id ps (rw (e, has_id) at h))
]

not_dangling :
    (ps : List RoadmapPhase) (f : RoadmapFeature)
    → is_known (trim_space f.phase_id) ps ≡ true
    → is_dangling ps f ≡ false
unfolding is_dangling
not_dangling ps f h = ground (arith, h)

-- What the validation asks of the phases and the features.
pub record IsSound (first : String) (s : Adding) : Type 0 where
  pub first_there : has_id first s.phases ≡ true
  pub all_named : first_unnamed 1 s.phases ≡ none
  pub none_dangling : dangling s.phases s.features ≡ []

module _ (new_id : ℕ → String) (model first : String) where
  add_feature-IsSound :
      (i : ℕ) (feat : RoadmapFeature) {s : Adding}
      → IsSound first s
      → IsSound first (add_feature new_id model first i feat s)
  unfolding add_feature
  add_feature-IsSound i feat {s} h =
      let id = resolve_phase first s.phases (trim_space feat.phase_id) in
      let new = new_feature new_id model first i feat id in
      let known =
        has_id-is_known id s.phases
          (resolve_phase-has_id first s.phases (trim_space feat.phase_id) h.first_there) in
      elim (Bool-cases (trim_space feat.title == "")) [
        | inl e ↦ rw (e, add_feature) h
        | inr e ↦ elim (Bool-cases (contains s.taken (key_of feat.title))) [
          | inl k ↦
              rw (e, add_feature)
                (rw k (record {
                  first_there = h.first_there;
                  all_named = h.all_named;
                  none_dangling = h.none_dangling;
                }))
          | inr k ↦
              rw (e, add_feature)
                (rw k (record {
                  first_there = has_id-list_under first id new.id s.phases ∙ h.first_there;
                  all_named = first_unnamed-list_under 1 id new.id s.phases ∙ h.all_named;
                  none_dangling =
                      dangling-list_under id new.id s.phases (s.features ++ new ∷ [])
                      ∙ dangling-append s.phases s.features new h.none_dangling
                          (not_dangling s.phases new known);
                }))
        ]
      ]

  add_features-IsSound :
      (i : ℕ) (feats : List RoadmapFeature) {s : Adding}
      → IsSound first s
      → IsSound first (add_features new_id model first i feats s)
  unfolding add_features
  add_features-IsSound i [] h = h
  add_features-IsSound i (feat ∷ feats) h =
      add_features-IsSound (i + 1) feats (add_feature-IsSound i feat h)

first-has_id : (p : RoadmapPhase) (ps : List RoadmapPhase) → has_id p.id (p ∷ ps) ≡ true
unfolding has_id
first-has_id p ps = rw (eq_refl p.id) refl

has_id-nonempty : (id : String) (ps : List RoadmapPhase) → has_id id ps ≡ true → is_empty ps ≡ false
unfolding has_id
has_id-nonempty id [] h = absurd (ground (arith, h))
has_id-nonempty id (p ∷ ps) h = refl

-- The validation passes only for phases and features that are sound.
validate-IsSound :
    (rm : Roadmap)
    → validate_roadmap_json rm ≡ none
    → IsSound (first_id rm.phases) (start_adding rm)
unfolding validate_roadmap_json
validate-IsSound rm h = elim (Bool-cases (is_empty rm.phases)) [
  | inl e ↦ absurd (ground (arith, rw (e, validate_roadmap_json) at h))
  | inr e ↦ elim (Option-cases (first_unnamed 1 rm.phases)) [
    | inr (i, k) ↦ absurd (ground (arith, rw k at (rw (e, validate_roadmap_json) at h)))
    | inl k ↦ elim (Bool-cases (is_empty (dangling rm.phases rm.features))) [
      | inr d ↦ absurd (ground (arith, rw (k, d) at (rw (e, validate_roadmap_json) at h)))
      | inl d ↦ record {
        first_there = first_there rm.phases e;
        all_named = k;
        none_dangling = none_left (dangling rm.phases rm.features) d;
      }
    ]
  ]
]
  where
    first_there : (ps : List RoadmapPhase) → is_empty ps ≡ false → has_id (first_id ps) ps ≡ true
    first_there [] n = absurd (ground (arith, n))
    first_there (p ∷ ps) n = first-has_id p ps

    none_left : (xs : List String) → is_empty xs ≡ true → xs ≡ []
    none_left [] h = refl
    none_left (x ∷ xs) h = absurd (ground (arith, h))

sound-validate :
    (first : String) (rm : Roadmap)
    → has_id first rm.phases ≡ true
    → first_unnamed 1 rm.phases ≡ none
    → dangling rm.phases rm.features ≡ []
    → validate_roadmap_json rm ≡ none
unfolding validate_roadmap_json
sound-validate first rm h n d =
    let some_phase = has_id-nonempty first rm.phases h in
    rw (some_phase, validate_roadmap_json) (rw (n, d) refl)

-- A roadmap told without the code's validation: no phase has a blank name, and every feature names a
-- phase by its id, up to blanks, or none.

abbrev pub all_named : List RoadmapPhase → Bool
all_named [] = true
all_named (p ∷ ps) = not (trim_space p.name == "") && all_named ps

abbrev pub stands : String → List RoadmapPhase → Bool
stands pid [] = false
stands pid (p ∷ ps) = trim_space p.id == pid || stands pid ps

abbrev pub all_placed : List RoadmapPhase → List RoadmapFeature → Bool
all_placed phases [] = true
all_placed phases (f ∷ fs) =
    (trim_space f.phase_id == "" || stands (trim_space f.phase_id) phases) && all_placed phases fs

first_unnamed-all_named :
    (i : ℕ) (ps : List RoadmapPhase) → first_unnamed i ps ≡ none → all_named ps ≡ true
unfolding first_unnamed
first_unnamed-all_named i [] h = refl
first_unnamed-all_named i (p ∷ ps) h = ground (arith, first_unnamed-all_named (i + 1) ps)

is_known-stands : (pid : String) (ps : List RoadmapPhase) → is_known pid ps ≡ stands pid ps
unfolding is_known
is_known-stands pid [] = refl
is_known-stands pid (p ∷ ps) = ground (arith, is_known-stands pid ps)

dangling-all_placed :
    (phases : List RoadmapPhase) (fs : List RoadmapFeature)
    → dangling phases fs ≡ []
    → all_placed phases fs ≡ true
unfolding dangling is_dangling
dangling-all_placed phases [] h = refl
dangling-all_placed phases (f ∷ fs) h =
    ground (arith, dangling-all_placed phases fs, is_known-stands (trim_space f.phase_id) phases)

-- A run whose features are added to a roadmap that passes the validation leaves one that passes it: it
-- has phases, none with a blank name, and no feature names a phase that is not there, where one that
-- names none passes. The record of an earlier validation error is gone.
pub featured-validate :
    (new_id : ℕ → String) (run_id : String) (rr : RunnerResult) (rm : Roadmap)
    → validate_roadmap_json rm ≡ none
    → let after = (featured new_id run_id rr rm).0 in
      (validate_roadmap_json after ≡ none)
      × (is_empty after.phases ≡ false)
      × (all_named after.phases ≡ true)
      × (all_placed after.phases after.features ≡ true)
      × (lookup "validation_error" after.metadata ≡ none)
unfolding featured
featured-validate new_id run_id rr rm h =
    let first = first_id rm.phases in
    let s = add_features new_id rr.model first 0 rr.features (start_adding rm) in
    let sound = add_features-IsSound new_id rr.model first 0 rr.features (validate-IsSound rm h) in
    let rm' : Roadmap = record rm {
      phases = s.phases;
      features = s.features;
      metadata = metadata_after run_id rr.model rm.metadata;
    } in
    let valid = sound-validate first rm' sound.first_there sound.all_named sound.none_dangling in
    (
      sound-validate first (featured new_id run_id rr rm).0 sound.first_there sound.all_named
          sound.none_dangling,
      has_id-nonempty first s.phases sound.first_there,
      first_unnamed-all_named 1 s.phases sound.all_named,
      dangling-all_placed s.phases s.features sound.none_dangling,
      rw valid (lookup-delete "validation_error" "validation_error" rm'.metadata),
    )
