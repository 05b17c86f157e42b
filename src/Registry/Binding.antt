-- ===== src/Registry/Binding.antt =====
-- The binding of a project to a GitHub project.
use opm_api.Prelude.{
  String, false, none, some, List, [], ◌∷◌, ◌≡◌, refl, ap, ◌==◌, ◌∙◌, sym, ok, arith, eq_iff,
  eq_refl, find, trim_space, if◌then◌else◌, Bool-cases, Option-cases, inl, inr,
}
use opm_api.Models.{Time, Project}
use opm_api.World.{World, write_registry, ◌>>=◌}
use opm_api.World.Steps.{bind-eq-ok}
use opm_api.World.Layout.{find_project}
use opm_api.Registry.{
  list_projects, put_project, bound, bind_in, set_github_project_binding, bind_github_project,
  unbind_github_project,
}
use opm_api.Registry.Tenants.{ids, ok-injective}
use opm_api.Registry.Entries.{write_registry-ok, put_project-ids, find-put_project}

-- The entry with the id that is found.
pub found-id :
    (id : String) (ps : List Project) {p : Project} → find_project id ps ≡ some p → p.id ≡ id
unfolding find_project find
found-id id [] e = absurd (ground (arith, e))
found-id id (x ∷ xs) {p} e = elim (Bool-cases (x.id == id)) [
  | inl q ↦
      let same : some x ≡ some p = rw q at e in
      ap (λ o. elim o [ none ↦ id | some r ↦ r.id ]) (sym same) ∙ (eq_iff x.id id).0 q
  | inr q ↦ found-id id xs {p = p} (ground (arith, e, q))
]

-- What a successful binding returns, and what is found then.
set_binding-ok :
    (now : Time) (id gh title url j : String) (w : World) {p : Project}
    → (set_github_project_binding now id gh title url w).0 ≡ ok p
    → (old : Project) × (find_project id w.registry ≡ some old)
      × (p ≡ bound now gh title url old)
      × (ids (set_github_project_binding now id gh title url w).1.registry ≡ ids w.registry)
      × (find_project j (set_github_project_binding now id gh title url w).1.registry
          ≡ (if id == j then some p else find_project j w.registry))
unfolding set_github_project_binding list_projects ◌>>=◌ bind_in
set_binding-ok now id gh title url j w {p} h = elim (Option-cases (find_project id w.registry)) [
  | inl e ↦ absurd (ground (arith, rw (e, bind_in) at h))
  | inr (old, e) ↦
      let new = bound now gh title url old in
      let (u, e₁, r₁, h₁) =
        bind-eq-ok (write_registry (put_project id new w.registry)) _ w (rw (e, bind_in) at h) in
      let reg =
        ap (λ o. o.1.registry) r₁
        ∙ ap (λ o. o.1.registry) (write_registry-ok (put_project id new w.registry) w e₁) in
      let same = sym (ok-injective h₁) in
      (
        old,
        e,
        same,
        rw (e, bind_in) (ap ids reg ∙ put_project-ids id new w.registry (found-id id w.registry e)),
        rw (e, bind_in)
            (ap (find_project j) reg
              ∙ find-put_project id new j w.registry (found-id id w.registry e)
              ∙ rw (e, same) refl),
      )
]

-- A project that is bound and then unbound is as it was, but for its binding, which is blank, and the
-- time of its update. No id is added or lost, and every other entry is as it was.
pub bind-unbind :
    (now now' : Time) (id gh title url j : String) (w w₁ w₂ : World) {p q : Project}
    → bind_github_project now id gh title url w ≡ (ok p, w₁)
    → unbind_github_project now' id w₁ ≡ (ok q, w₂)
    → (old : Project) × (find_project id w.registry ≡ some old)
      × (p.github_project_id ≡ trim_space gh)
      × ((p.github_project_id == "") ≡ false)
      × (q ≡ record old {
        github_project_id = "";
        github_project_title = "";
        github_project_url = "";
        updated_at = now';
      })
      × (ids w₂.registry ≡ ids w.registry)
      × (find_project j w₂.registry ≡ (if id == j then some q else find_project j w.registry))
unfolding bind_github_project unbind_github_project trim_space
bind-unbind now now' id gh title url j w w₁ w₂ {p} {q} h k =
    elim (Bool-cases (trim_space gh == "")) [
      | inl e ↦ absurd (ground (arith, ap (λ o. o.0) (rw (e, bind_github_project) at h)))
      | inr e ↦
          let h' : set_github_project_binding now id gh title url w ≡ (ok p, w₁) =
            rw (e, bind_github_project) at h in
          let reg = ap (λ o. o.1.registry) h' in
          let reg' = ap (λ o. o.1.registry) k in
          let (old, f, same, kept, _) =
            set_binding-ok now id gh title url id w (ap (λ o. o.0) h') in
          let (_, _, _, _, at_j) = set_binding-ok now id gh title url j w (ap (λ o. o.0) h') in
          let (_, _, _, _, at_id) = set_binding-ok now id gh title url id w (ap (λ o. o.0) h') in
          let (old', f', same', kept', at_j') =
            set_binding-ok now' id "" "" "" j w₁ (ap (λ o. o.0) k) in
          let found : some old' ≡ some p =
            sym f' ∙ ap (find_project id) (sym reg) ∙ at_id ∙ rw (eq_refl id) refl in
          let back : old' ≡ p = ap (λ o. elim o [ none ↦ p | some r ↦ r ]) found in
          (
            old,
            f,
            ap (λ r. r.github_project_id) same,
            ap (λ r. r.github_project_id == "") same ∙ e,
            same' ∙ ap (bound now' "" "" "") (back ∙ same),
            ap ids (sym reg') ∙ kept' ∙ ap ids (sym reg) ∙ kept,
            ap (find_project j) (sym reg')
                ∙ at_j'
                ∙ ground (arith, ap (find_project j) (sym reg) ∙ at_j),
          )
    ]
