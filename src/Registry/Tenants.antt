-- ===== src/Registry/Tenants.antt =====
-- Who sees which projects.
use opm_api.Prelude.{
  String, true, not, ◌&&◌, Option, none, some, List, [], ◌∷◌, ◌≡◌, refl, ap, ◌==◌, ◌∙◌, sym, Result,
  ok, err, ◌≤◌, count, find, map, arith, eq_iff, trim_space, if◌then◌else◌, Bool-cases,
  Option-cases, inl, inr,
}
use opm_api.Models.{Project}
use opm_api.World.{World, ◌>>=◌}
use opm_api.World.Layout.{find_project, get_project}
use opm_api.Registry.{list_projects, in_org, list_projects_for_org, get_project_for_org}
use opm_api.Registry.Scope.{Tenancy, project_org_id, project_in_org, normalize_write_org}

abbrev pub ids : List Project → List String
ids ps = map (λ p. p.id) ps

-- An id that does not occur is not found.
find_project-absent :
    (id : String) (ps : List Project) → count id (ids ps) ≡ 0 → find_project id ps ≡ none
unfolding find_project find count
find_project-absent id [] h = refl
find_project-absent id (x ∷ xs) h = ground (arith, find_project-absent id xs, h)

trim_space-blank : trim_space "" ≡ ""
unfolding trim_space
trim_space-blank = refl

pub ok-injective : {A : Type 0} {a b : A} → ok a ≡ ok b → a ≡ b
ok-injective {A} {a} h = ap (λ (r : Result A). elim r [ ok x ↦ x | err _ ↦ a ]) h

module _ (tenancy : Tenancy) where
  -- Where authentication is enforced, a project is in the scope of one organisation at most, or of
  -- the personal one: two organisations that see it are the same once they are normalised.
  project_in_org_unique :
      (p : Project) (org org' : String)
      → tenancy.enforced ≡ true
      → project_in_org tenancy p org ≡ true
      → project_in_org tenancy p org' ≡ true
      → normalize_write_org tenancy org ≡ normalize_write_org tenancy org'
  unfolding project_in_org normalize_write_org
  project_in_org_unique p org org' f h h' = ground (
    arith,
    eq_iff (trim_space org) tenancy.all,
    eq_iff (trim_space org') tenancy.all,
    eq_iff (trim_space org) "",
    eq_iff (trim_space org') "",
    eq_iff (project_org_id tenancy p) "",
    eq_iff (project_org_id tenancy p) (trim_space org),
    eq_iff (project_org_id tenancy p) (trim_space org'),
  )

  abbrev visible : String → Option Project → Option Project
  visible org none = none
  visible org (some p) = if project_in_org tenancy p org then some p else none

  find-in_org :
      (org id : String) (ps : List Project)
      → count id (ids ps) ≤ 1
      → find_project id (in_org tenancy org ps) ≡ visible org (find_project id ps)
  unfolding in_org find_project find count
  find-in_org org id [] h = refl
  find-in_org org id (x ∷ xs) h = elim (Bool-cases (x.id == id)) [
    | inl q ↦
        let none_later = find_project-absent id xs (ground (arith, h, q)) in
        ground (arith, find-in_org org id xs (ground (arith, h)), none_later, q)
    | inr q ↦ ground (arith, find-in_org org id xs (ground (arith, h)), q)
  ]

  unscoped :
      (p : Project) (org : String)
      → (org == "" && not tenancy.enforced) ≡ true
      → project_in_org tenancy p org ≡ true
  unfolding project_in_org
  unscoped p org h =
      let e : org ≡ "" = (eq_iff org "").0 (ground (arith, h)) in
      let b : trim_space org ≡ "" = ap trim_space e ∙ trim_space-blank in
      ground (arith, b, h, eq_iff (if "" == tenancy.all then "" else "") "")

  scoped_find :
      (id org : String) (all : List Project)
      → count id (ids all) ≤ 1
      → find_project id (if org == "" && not tenancy.enforced then all else in_org tenancy org all)
        ≡ visible org (find_project id all)
  scoped_find id org all h = elim (Bool-cases (org == "" && not tenancy.enforced)) [
    | inr e ↦ rw e (find-in_org org id all h)
    | inl e ↦ rw e (elim (Option-cases (find_project id all)) [
      | inl f ↦ rw f refl
      | inr (p, f) ↦ rw (f, unscoped p org e) refl
    ])
  ]

  -- Where ids are distinct, a project is returned for an organisation exactly if it is on the list
  -- for that organisation.
  get_project_for_org-listed :
      (id org : String) (w : World) (ps : List Project)
      → count id (ids w.registry) ≤ 1
      → (list_projects_for_org tenancy org w).0 ≡ ok ps
      → (get_project_for_org tenancy id org w).0
        ≡ elim (find_project id ps) [ none ↦ err "project not found" | some p ↦ ok p ]
  unfolding get_project_for_org list_projects_for_org get_project list_projects ◌>>=◌
  get_project_for_org-listed id org w ps h l =
      let same : (if org == "" && not tenancy.enforced
            then w.registry
            else in_org tenancy org w.registry)
          ≡ ps =
        ok-injective l in
      rw (sym same) (
        rw (scoped_find id org w.registry h) (elim (Option-cases (find_project id w.registry)) [
          | inl f ↦ rw (f, get_project_for_org, get_project) refl
          | inr (p, f) ↦ elim (Bool-cases (project_in_org tenancy p org)) [
            | inl i ↦ rw (f, get_project_for_org, get_project) (rw i refl)
            | inr i ↦ rw (f, get_project_for_org, get_project) (rw i refl)
          ]
        ]))
