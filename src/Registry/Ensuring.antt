-- ===== src/Registry/Ensuring.antt =====
-- `EnsureProject` on the ids of the registry.
use opm_api.Prelude.{
  String, Bool, true, false, not, ◌&&◌, ◌||◌, eq_refl, none, some, List, [], ◌∷◌, ◌++◌, ◌≡◌, refl,
  ap, ◌==◌, ◌∙◌, sym, ok, arith, find, trim_space, Bool-cases, Option-cases, inl, inr, ◌⊎◌,
}
use opm_api.Models.{Time, Project}
use opm_api.World.{World, pure, write_registry, ◌>>=◌, ◌>>◌}
use opm_api.World.Steps.{bind-eq-ok}
use opm_api.World.Layout.{find_project, ensure_layout}
use opm_api.World.Layout.Laws.{ensure_layout-LaysOut}
use opm_api.Registry.{
  fill, NewProject, list_projects, is_linked, put_project, enrich, display_name, board_project,
  refresh_project, ensure_in, ensure_project,
}
use opm_api.Registry.Names.{normalize_owner_repo}
use opm_api.Registry.Scope.{Tenancy, normalize_write_org}
use opm_api.Registry.Tenants.{ids, ok-injective}
use opm_api.Registry.Entries.{write_registry-ok, put_project-ids, find-put_project, add_project-ok}
use opm_api.Registry.Binding.{found-id}

-- A success of seeing to the files of an entry returns it and keeps the registry.
laid_out-ok :
    (now : Time) (p : Project) (w : World) {q : Project}
    → ((ensure_layout now p >> pure p) w).0 ≡ ok q
    → (q ≡ p) × (((ensure_layout now p >> pure p) w).1.registry ≡ w.registry)
laid_out-ok now p w h =
    let (u, e, r, k) = bind-eq-ok (ensure_layout now p) _ w h in
    (
      sym (ok-injective k),
      ap (λ o. o.1.registry) r ∙ ((ensure_layout-LaysOut now p).at w).same_registry,
    )

enrich-id :
    (tenancy : Tenancy) (name repo : String) (req : NewProject) (p : Project)
    → (enrich tenancy name repo req p).0.id ≡ p.id
unfolding enrich
enrich-id tenancy name repo req p = refl

-- Where nothing is filled in, nothing changes.
fill-same :
    (blank : Bool) (new : String) (o : String × Bool)
    → (fill blank new o).1 ≡ false
    → ((fill blank new o).0 ≡ o.0) × (o.1 ≡ false)
unfolding fill
fill-same blank new o h = elim (Bool-cases (not (new == "") && blank)) [
  | inl e ↦ absurd (ground (arith, rw e at h))
  | inr e ↦ rw e (refl, rw e at h)
]

enrich-same :
    (tenancy : Tenancy) (name repo : String) (req : NewProject) (p : Project)
    → (enrich tenancy name repo req p).1 ≡ false
    → (enrich tenancy name repo req p).0 ≡ p
unfolding enrich
enrich-same tenancy name repo req p h =
    let org = normalize_write_org tenancy req.organization_id in
    let stored = normalize_write_org tenancy p.organization_id in
    let o₁ = fill (normalize_owner_repo p.owner_repo == "") repo (p.owner_repo, false) in
    let o₂ =
      fill (trim_space p.connector_id == "") (trim_space req.connector_id) (p.connector_id, o₁.1) in
    let o₃ =
      fill (trim_space p.github_repo_id == "") (trim_space req.github_repo_id)
        (p.github_repo_id, o₂.1) in
    let o₄ = fill (trim_space p.html_url == "") (trim_space req.html_url) (p.html_url, o₃.1) in
    let o₅ = fill (trim_space p.name == "") name (p.name, o₄.1) in
    let (e₆, h₅) =
      fill-same (stored == "" || not (stored == org)) org (p.organization_id, o₅.1) h in
    let (e₅, h₄) = fill-same (trim_space p.name == "") name (p.name, o₄.1) h₅ in
    let (e₄, h₃) =
      fill-same (trim_space p.html_url == "") (trim_space req.html_url) (p.html_url, o₃.1) h₄ in
    let (e₃, h₂) =
      fill-same (trim_space p.github_repo_id == "") (trim_space req.github_repo_id)
        (p.github_repo_id, o₂.1) h₃ in
    let (e₂, h₁) =
      fill-same (trim_space p.connector_id == "") (trim_space req.connector_id)
        (p.connector_id, o₁.1) h₂ in
    let (e₁, _) =
      fill-same (normalize_owner_repo p.owner_repo == "") repo (p.owner_repo, false) h₁ in
    ap (λ x. record ((enrich tenancy name repo req p).0) { owner_repo = x }) e₁
    ∙ ap
        (λ x. record ((enrich tenancy name repo req p).0) {
          owner_repo = p.owner_repo;
          connector_id = x;
        })
        e₂
    ∙ ap
        (λ x. record ((enrich tenancy name repo req p).0) {
          owner_repo = p.owner_repo;
          connector_id = p.connector_id;
          github_repo_id = x;
        })
        e₃
    ∙ ap
        (λ x. record p {
          html_url = x;
          name = o₅.0;
          organization_id = (enrich tenancy name repo req p).0.organization_id;
        })
        e₄
    ∙ ap
        (λ x. record p {
          name = x;
          organization_id = (enrich tenancy name repo req p).0.organization_id;
        })
        e₅
    ∙ ap (λ x. record p { organization_id = x }) e₆

-- What a success on the entry with the id leaves: the returned entry under that id, and every other
-- id and entry as before.
pub record Refreshed (id : String) (p : Project) (before after : List Project) : Type 0 where
  pub same_id : p.id ≡ id
  pub registered : find_project id after ≡ some p
  pub others : (j : String) → (id == j) ≡ false → find_project j after ≡ find_project j before
  pub same_ids : ids after ≡ ids before

refresh_project-ok :
    (tenancy : Tenancy) (now : Time) (name repo : String) (req : NewProject) (id : String)
    (p : Project) (w : World) {q : Project}
    → find_project id w.registry ≡ some p
    → (refresh_project tenancy now name repo req p w).0 ≡ ok q
    → Refreshed id q w.registry (refresh_project tenancy now name repo req p w).1.registry
unfolding refresh_project list_projects ◌>>=◌
refresh_project-ok tenancy now name repo req id p w {q} f h =
    let out = enrich tenancy name repo req p in
    let same = enrich-id tenancy name repo req p in
    let own = found-id id w.registry f in
    elim (Bool-cases out.1) [
      | inr e ↦
          let (k, r) = laid_out-ok now out.0 w (rw (e, refresh_project) at h) in
          let kept = k ∙ enrich-same tenancy name repo req p e in
          rw (e, refresh_project)
            (record {
              same_id = ap (λ x. x.id) kept ∙ own;
              registered = ap (find_project id) r ∙ f ∙ ap some (sym kept);
              others = λ j n. ap (find_project j) r;
              same_ids = ap ids r;
            })
      | inl e ↦
          let new = record (out.0) { updated_at = now } in
          let ps = put_project p.id new w.registry in
          let (u, e₁, r₁, h₁) = bind-eq-ok (write_registry ps) _ w (rw (e, refresh_project) at h) in
          let (k, r) = laid_out-ok now new _ h₁ in
          let written =
            ap (λ o. o.1.registry) r₁ ∙ r ∙ ap (λ o. o.1.registry) (write_registry-ok ps w e₁) in
          rw (e, refresh_project)
            (record {
              same_id = ap (λ x. x.id) k ∙ same ∙ own;
              registered =
                  ap (find_project id) written
                  ∙ ground
                      (arith, find-put_project p.id new id w.registry same, own, f, eq_refl id, k);
              others = λ j n.
                  ap (find_project j) written
                  ∙ ground (arith, find-put_project p.id new j w.registry same, own, n);
              same_ids = ap ids written ∙ put_project-ids p.id new w.registry same;
            })
    ]

-- Which entry is returned, and the registry after it.
pub data Ensured (id repo : String) (p : Project) (before after : List Project) : Type 0 where
  -- The entry that was there with the id, which is in the registry as it is returned.
  by_id :
      {old : Project}
      → find_project id before ≡ some old
      → Refreshed id p before after
      → Ensured id repo p before after
  -- The first entry of the repository.
  by_repo :
      find_project id before ≡ none
      → (repo == "") ≡ false
      → find (is_linked repo) before ≡ some p
      → after ≡ before
      → Ensured id repo p before after
  -- A new entry.
  inserted :
      find_project id before ≡ none
      → (repo == "") ≡ true ⊎ (find (is_linked repo) before ≡ none)
      → p.id ≡ id
      → after ≡ before ++ p ∷ []
      → Ensured id repo p before after

-- An `EnsureProject` that succeeds had an id. Where an entry with the id was there, it returns what the
-- registry then has under the id, and every other id is found as before; where there was none but one
-- of the repository, it returns that and keeps the registry; else it returns a new entry with the id,
-- which stands at the end of the registry.
pub ensure_project-Ensured :
    (tenancy : Tenancy) (now : Time) (req : NewProject) (w : World) {p : Project}
    → (ensure_project tenancy now req w).0 ≡ ok p
    → ((trim_space req.id == "") ≡ false)
      × Ensured
          (trim_space req.id)
          (normalize_owner_repo req.owner_repo)
          p
          w.registry
          (ensure_project tenancy now req w).1.registry
unfolding ensure_project list_projects ◌>>=◌ ensure_in board_project
ensure_project-Ensured tenancy now req w {p} h =
    let id = trim_space req.id in
    let repo = normalize_owner_repo req.owner_repo in
    let name = display_name req id repo in
    elim (Bool-cases (id == "")) [
      | inl e ↦ absurd (ground (arith, rw (e, ensure_project) at h))
      | inr e ↦ (
        e,
        rw (e, ensure_project)
            (let h' : (ensure_in tenancy now id repo req w.registry w).0 ≡ ok p =
                rw (e, ensure_project) at h in
              elim (Option-cases (find_project id w.registry)) [
                | inr (old, f) ↦
                    rw (f, ensure_in)
                      (by_id f (
                        refresh_project-ok tenancy now name repo req id old w f
                          (rw (f, ensure_in) at h')))
                | inl f ↦ elim (Bool-cases (repo == "")) [
                  | inl g ↦
                      let new = board_project tenancy now id name repo req in
                      let (k, r) = add_project-ok now new w (rw g at (rw (f, ensure_in) at h')) in
                      rw (f, ensure_in)
                        (rw g (
                          inserted f (inl g) (ap (λ x. x.id) k)
                            (r ∙ ap (λ x. w.registry ++ x ∷ []) (sym k))))
                  | inr g ↦ elim (Option-cases (find (is_linked repo) w.registry)) [
                    | inr (old, l) ↦
                        let (k, r) =
                          laid_out-ok now old w (rw (g, l) at (rw (f, ensure_in) at h')) in
                        rw (f, ensure_in) (rw (g, l) (by_repo f g (l ∙ ap some (sym k)) r))
                    | inl l ↦
                        let new = board_project tenancy now id name repo req in
                        let (k, r) =
                          add_project-ok now new w (rw (g, l) at (rw (f, ensure_in) at h')) in
                        rw (f, ensure_in)
                          (rw (g, l)
                            (inserted f (inr l) (ap (λ x. x.id) k)
                              (r ∙ ap (λ x. w.registry ++ x ∷ []) (sym k))))
                  ]
                ]
              ]),
      )
    ]
