-- ===== src/Registry/Linking.antt =====
-- `CreateProject`, `EnsureProject` and `DeleteProject` on the registry.
use opm_api.Prelude.{
  String, false, ◌||◌, none, List, [], ◌∷◌, ◌++◌, ◌≡◌, refl, ap, ◌==◌, ◌∙◌, sym, ok, err, ◌+◌, ◌≤◌,
  count, find, map, arith, eq_iff, trim_space, if◌then◌else◌, Bool-cases, Option-cases, inl, inr,
  ◌⊎◌,
}
use opm_api.Models.{Time, Project}
use opm_api.World.{File, World, ignore, write, write_registry, ◌>>=◌}
use opm_api.World.Layout.{find_project}
use opm_api.Registry.{
  NewProject, list_projects, is_linked, linked_project, link_in, create_project, delete_project,
  remove_in,
}
use opm_api.Registry.Names.{normalize_owner_repo}
use opm_api.Registry.Scope.{Tenancy}
use opm_api.Registry.Entries.{add_project-ok, find-without}

-- The repositories of the entries, as they are compared.
abbrev pub repos : List Project → List String
repos ps = map (λ p. normalize_owner_repo p.owner_repo) ps

unlinked :
    (repo : String) (ps : List Project)
    → find (is_linked repo) ps ≡ none
    → count repo (repos ps) ≡ 0
unfolding find is_linked count
unlinked repo [] h = refl
unlinked repo (p ∷ ps) h = ground (arith, unlinked repo ps, h)

repos-snoc :
    (repo : String) (ps : List Project) (p : Project)
    → count repo (repos (ps ++ p ∷ []))
      ≡ count repo (repos ps) + (if normalize_owner_repo p.owner_repo == repo then 1 else 0)
unfolding count
repos-snoc repo [] p = ground arith
repos-snoc repo (x ∷ xs) p = ground (arith, repos-snoc repo xs p)

-- What a successful `CreateProject` returns and adds.
create_project-ok :
    (tenancy : Tenancy) (now : Time) (uuid : String) (req : NewProject) (w : World) {p : Project}
    → (create_project tenancy now uuid req w).0 ≡ ok p
    → (p.id ≡ uuid)
      × (p.owner_repo ≡ normalize_owner_repo req.owner_repo)
      × ((p.owner_repo == "") ≡ false)
      × (count p.owner_repo (repos w.registry) ≡ 0)
      × ((create_project tenancy now uuid req w).1.registry ≡ w.registry ++ p ∷ [])
unfolding create_project list_projects ◌>>=◌ linked_project link_in
create_project-ok tenancy now uuid req w {p} h =
    let repo = normalize_owner_repo req.owner_repo in
    elim (Bool-cases (repo == "" || trim_space req.connector_id == "")) [
      | inl e ↦ absurd (ground (arith, rw (e, create_project) at h))
      | inr e ↦
          let h' : (link_in tenancy now uuid repo req w.registry w).0 ≡ ok p =
            rw (e, create_project) at h in
          elim (Option-cases (find (is_linked repo) w.registry)) [
            | inr (q, f) ↦ absurd (ground (arith, rw (f, link_in) at h'))
            | inl f ↦
                let (same, reg) =
                  add_project-ok now (linked_project tenancy now uuid repo req) w
                    (rw (f, link_in) at h') in
                (
                  ap (λ p. p.id) same,
                  ap (λ p. p.owner_repo) same,
                  ap (λ p. p.owner_repo == "") same ∙ ground (arith, e),
                  ap (λ p. count p.owner_repo (repos w.registry)) same ∙ unlinked repo w.registry f,
                  rw (e, create_project)
                      (rw (f, link_in) (reg ∙ ap (λ p. w.registry ++ p ∷ []) (sym same))),
                )
          ]
    ]

-- Where no repository is linked twice, none is after a successful `CreateProject` of one whose
-- normal form is its own normal form.
create_project_unique :
    (tenancy : Tenancy) (now : Time) (uuid : String) (req : NewProject) (w : World) {p : Project}
    (repo : String)
    → normalize_owner_repo (normalize_owner_repo req.owner_repo)
      ≡ normalize_owner_repo req.owner_repo
    → count repo (repos w.registry) ≤ 1
    → (create_project tenancy now uuid req w).0 ≡ ok p
    → count repo (repos (create_project tenancy now uuid req w).1.registry) ≤ 1
create_project_unique tenancy now uuid req w {p} repo stable d h =
    let (_, named, filled, fresh, reg) = create_project-ok tenancy now uuid req w h in
    let same : normalize_owner_repo p.owner_repo ≡ p.owner_repo =
      ap normalize_owner_repo named ∙ stable ∙ sym named in
    rw reg (
      ground (
        arith,
        repos-snoc repo w.registry p,
        eq_iff (normalize_owner_repo p.owner_repo) repo,
        ap (λ r. count r (repos w.registry)) same ∙ fresh,
        d,
      ))

-- A removal that succeeds takes the id off the registry, and its files away, and leaves what is found
-- at every other id. A removal of an unknown id fails and changes nothing.
delete_project-removes :
    (id j : String) (w : World)
    → ((find_project id w.registry ≡ none) × (delete_project id w ≡ (err "project not found", w)))
      ⊎ ((w.writable File.registry ≡ false) × (delete_project id w ≡ (err "write failed", w)))
      ⊎ (((delete_project id w).0 ≡ ok tt)
          × (find_project j (delete_project id w).1.registry
              ≡ (if id == j then none else find_project j w.registry)))
unfolding delete_project list_projects remove_in ◌>>=◌ ignore write_registry write find_project
delete_project-removes id j w = elim (Option-cases (find_project id w.registry)) [
  | inl e ↦ inl (e, rw (e, remove_in) refl)
  | inr (p, e) ↦ elim (Bool-cases (w.writable File.registry)) [
    | inr f ↦ inr (inl (f, rw (e, remove_in) (rw (f, write_registry) refl)))
    | inl f ↦ inr (
        inr (
          rw (e, remove_in) (rw (f, write_registry) refl),
          rw (e, remove_in)
              (rw (f, write_registry)
                (elim (Bool-cases (w.writable File.dirs)) [
                  | inl g ↦ rw (g, write) (find-without id j w.registry)
                  | inr g ↦ rw (g, write) (find-without id j w.registry)
                ])),
        ))
  ]
]
