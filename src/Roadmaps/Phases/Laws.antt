-- ===== src/Roadmaps/Phases/Laws.antt =====
-- The phases after a merge.
use opm_api.Prelude.{
  ℕ, ◌+◌, ◌≤◌, String, true, false, ◌||◌, none, List, [], ◌∷◌, ◌++◌, map, ◌==◌, ◌≡◌, refl, sym, ap,
  ◌∙◌, arith, is_empty, length, count, count-append, contains, trim_space, trim_space-trim_space,
  eq_iff, Bool-cases, inl, inr, if◌then◌else◌, to_lower,
}
use mathlib.Core.List.{append-nil, append_assoc, map-append}
use opm_api.Models.{RoadmapPhase}
use opm_api.Roadmaps.{key_of}
use opm_api.Roadmaps.Phases.{
  phase_key, has_bind, taken_over, id_of, fresh_phases, has_key, refresh_last, merge_phase,
  merge_bound, merge_roadmap_phases,
}

abbrev pub keys : List RoadmapPhase → List String
keys ps = map (λ p. phase_key p) ps

-- What binds a phase: its id, its name and its milestone.
abbrev pub binding : RoadmapPhase → String × String × ℕ
binding p = (p.id, p.name, p.github_milestone_number)

abbrev pub bindings : List RoadmapPhase → List (String × String × ℕ)
bindings ps = map (λ p. binding p) ps

pub key_of-trim_space : (s : String) → key_of (trim_space s) ≡ key_of s
unfolding key_of
key_of-trim_space s = ap to_lower (trim_space-trim_space s)

has_key-count :
    (key : String) (ps : List RoadmapPhase) → has_key key ps ≡ false → count key (keys ps) ≡ 0
unfolding has_key count
has_key-count key [] h = refl
has_key-count key (p ∷ ps) h = ground (arith, has_key-count key ps)

bindings-refresh_last :
    (key : String) (ph : RoadmapPhase) (ps : List RoadmapPhase)
    → bindings (refresh_last key ph ps) ≡ bindings ps
unfolding refresh_last
bindings-refresh_last key ph [] = refl
bindings-refresh_last key ph (p ∷ ps) = elim (Bool-cases (has_key key ps)) [
  | inl e ↦ rw (e, refresh_last) (ap (λ bs. binding p ∷ bs) (bindings-refresh_last key ph ps))
  | inr e ↦ elim (Bool-cases (phase_key p == key)) [
    | inl k ↦ rw (e, refresh_last) (rw k refl)
    | inr k ↦ rw (e, refresh_last) (rw k refl)
  ]
]

keys-refresh_last :
    (key : String) (ph : RoadmapPhase) (ps : List RoadmapPhase)
    → keys (refresh_last key ph ps) ≡ keys ps
unfolding refresh_last
keys-refresh_last key ph [] = refl
keys-refresh_last key ph (p ∷ ps) = elim (Bool-cases (has_key key ps)) [
  | inl e ↦ rw (e, refresh_last) (ap (λ ks. phase_key p ∷ ks) (keys-refresh_last key ph ps))
  | inr e ↦ elim (Bool-cases (phase_key p == key)) [
    | inl k ↦ rw (e, refresh_last) (rw k refl)
    | inr k ↦ rw (e, refresh_last) (rw k refl)
  ]
]

-- No two phases have the same name.
abbrev pub Distinct : List RoadmapPhase → Type 0
Distinct ps = (a : String) → count a (keys ps) ≤ 1

module _ (ids : ℕ → String) where
  bindings-merge_phase :
      (i : ℕ) (ph : RoadmapPhase) (out : List RoadmapPhase)
      → (rest : List (String × String × ℕ)) × (bindings (merge_phase ids i ph out)
          ≡ bindings out ++ rest)
  unfolding merge_phase
  bindings-merge_phase i ph out = elim (Bool-cases (trim_space ph.name == "")) [
    | inl e ↦ ([], rw (e, merge_phase) (sym (append-nil (bindings out))))
    | inr e ↦ elim (Bool-cases (has_key (key_of ph.name) out)) [
      | inl k ↦ (
        [],
        rw (e, merge_phase)
            (rw k
              (bindings-refresh_last (key_of ph.name) ph out ∙ sym (append-nil (bindings out)))),
      )
      | inr k ↦
          let new = taken_over (id_of ids i ph none) (length out + 1) ph in
          (binding new ∷ [], rw (e, merge_phase) (rw k (map-append _ out (new ∷ []))))
    ]
  ]

  bindings-merge_bound :
      (i : ℕ) (incoming out : List RoadmapPhase)
      → (rest : List (String × String × ℕ)) × (bindings (merge_bound ids i incoming out)
          ≡ bindings out ++ rest)
  unfolding merge_bound
  bindings-merge_bound i [] out = ([], sym (append-nil (bindings out)))
  bindings-merge_bound i (ph ∷ incoming) out =
      let (r₁, e₁) = bindings-merge_phase i ph out in
      let (r₂, e₂) = bindings-merge_bound (i + 1) incoming (merge_phase ids i ph out) in
      (r₁ ++ r₂, e₂ ∙ ap (λ bs. bs ++ r₂) e₁ ∙ append_assoc (bindings out) r₁ r₂)

  -- Where a phase of the roadmap is bound to a milestone, a merge keeps the id, the name and the
  -- milestone of every phase, in their order; new phases come behind them.
  pub merge_roadmap_phases-keeps :
      (existing incoming : List RoadmapPhase)
      → has_bind existing ≡ true
      → (rest : List (String × String × ℕ)) × (bindings (merge_roadmap_phases ids existing incoming)
          ≡ bindings existing ++ rest)
  unfolding merge_roadmap_phases
  merge_roadmap_phases-keeps existing incoming h = elim (Bool-cases (is_empty incoming)) [
    | inl e ↦ ([], rw (e, merge_roadmap_phases) (sym (append-nil (bindings existing))))
    | inr e ↦
        let (rest, k) = bindings-merge_bound 0 incoming existing in
        (rest, rw (e, merge_roadmap_phases) (rw h k))
  ]

  count-merge_phase :
      (i : ℕ) (ph : RoadmapPhase) (out : List RoadmapPhase)
      → Distinct out
      → Distinct (merge_phase ids i ph out)
  unfolding merge_phase count
  count-merge_phase i ph out d a = elim (Bool-cases (trim_space ph.name == "")) [
    | inl e ↦ rw (e, merge_phase) (d a)
    | inr e ↦ elim (Bool-cases (has_key (key_of ph.name) out)) [
      | inl k ↦ rw (e, merge_phase) (rw k (rw (keys-refresh_last (key_of ph.name) ph out) (d a)))
      | inr k ↦ rw (e, merge_phase) (rw k (rw (map-append _ out _) (appended k)))
    ]
  ]
    where
      appended :
          has_key (key_of ph.name) out ≡ false
          → count a (keys out ++ key_of (trim_space ph.name) ∷ []) ≤ 1
      appended k = rw (key_of-trim_space ph.name) (
          ground (
            arith,
            d a,
            count-append a (keys out) (key_of ph.name ∷ []),
            has_key-count (key_of ph.name) out k,
            eq_iff (key_of ph.name) a,
          ))

  count-merge_bound :
      (i : ℕ) (incoming out : List RoadmapPhase)
      → Distinct out
      → Distinct (merge_bound ids i incoming out)
  unfolding merge_bound
  count-merge_bound i [] out d = d
  count-merge_bound i (ph ∷ incoming) out d =
      count-merge_bound (i + 1) incoming (merge_phase ids i ph out) (count-merge_phase i ph out d)

  -- A new roadmap names each phase once, and none that was seen before.
  count-fresh_phases :
      (existing : List RoadmapPhase) (i : ℕ) (seen : List String) (incoming : List RoadmapPhase)
      (a : String)
      → count a (keys (fresh_phases ids existing i seen incoming))
        ≤ (if contains seen a then 0 else 1)
  unfolding fresh_phases count contains
  count-fresh_phases existing i seen [] a = ground arith
  count-fresh_phases existing i seen (ph ∷ incoming) a =
      elim (Bool-cases (trim_space ph.name == "" || contains seen (key_of ph.name))) [
        | inl e ↦ rw (e, fresh_phases) (count-fresh_phases existing (i + 1) seen incoming a)
        | inr e ↦
            rw (e, fresh_phases)
              (rw (key_of-trim_space ph.name) (
                ground (
                  arith,
                  e,
                  count-fresh_phases existing (i + 1) (key_of ph.name ∷ seen) incoming a,
                  eq_iff (key_of ph.name) a,
                  eq_iff a (key_of ph.name),
                )))
      ]

  -- A merge into phases with distinct names leaves distinct names.
  pub merge_roadmap_phases-Distinct :
      (existing incoming : List RoadmapPhase)
      → Distinct existing
      → Distinct (merge_roadmap_phases ids existing incoming)
  unfolding merge_roadmap_phases contains
  merge_roadmap_phases-Distinct existing incoming d a =
      let fresh = fresh_phases ids existing 0 [] incoming in
      elim (Bool-cases (is_empty incoming)) [
        | inl e ↦ rw (e, merge_roadmap_phases) (d a)
        | inr e ↦ elim (Bool-cases (has_bind existing || is_empty fresh)) [
          | inl k ↦ rw (e, merge_roadmap_phases) (rw k (count-merge_bound 0 incoming existing d a))
          | inr k ↦
              rw (e, merge_roadmap_phases) (rw k (count-fresh_phases existing 0 [] incoming a))
        ]
      ]
