-- ===== src/Registry/Entries.antt =====
-- The list of entries under the registry's writes, and the writes themselves.
use opm_api.Prelude.{
  String, none, some, List, [], ◌∷◌, ◌++◌, ◌≡◌, refl, ap, ◌==◌, ◌∙◌, sym, ok, find, arith, eq_iff,
  if◌then◌else◌, Bool-cases, inl, inr,
}
use opm_api.Models.{Time, Project}
use opm_api.World.{File, World, Done, write_registry, ◌>>=◌}
use opm_api.World.Steps.{bind-eq-ok}
use opm_api.World.Layout.{find_project, ensure_layout}
use opm_api.World.Layout.Laws.{ensure_layout-LaysOut}
use opm_api.Registry.{list_projects, put_project, without_project, add_project}
use opm_api.Registry.Tenants.{ids, ok-injective}

-- A registry that is written is the one that is read then.
pub write_registry-ok :
    (ps : List Project) (w : World) {u : Done}
    → (write_registry ps w).0 ≡ ok u
    → write_registry ps w ≡ (ok tt, record w { registry = ps })
unfolding write_registry
write_registry-ok ps w h = elim (Bool-cases (w.writable File.registry)) [
  | inl e ↦ rw (e, write_registry) refl
  | inr e ↦ absurd (ground (arith, h, e))
]

-- What a successful addition returns, and the registry after it.
pub add_project-ok :
    (now : Time) (p : Project) (w : World) {q : Project}
    → (add_project now p w).0 ≡ ok q
    → (q ≡ p) × ((add_project now p w).1.registry ≡ w.registry ++ p ∷ [])
unfolding add_project list_projects ◌>>=◌
add_project-ok now p w h =
    let (u, e₁, r₁, h₁) = bind-eq-ok (write_registry (w.registry ++ p ∷ [])) _ w h in
    let (u', e₂, r₂, h₂) = bind-eq-ok (ensure_layout now p) _ _ h₁ in
    let l = (ensure_layout-LaysOut now p).at _ in
    (
      sym (ok-injective h₂),
      ap (λ o. o.1.registry) (r₁ ∙ r₂)
          ∙ l.same_registry
          ∙ ap (λ o. o.1.registry) (write_registry-ok (w.registry ++ p ∷ []) w e₁),
    )

module _ (id : String) (p : Project) where
  pub put_project-ids : (ps : List Project) → p.id ≡ id → ids (put_project id p ps) ≡ ids ps
  unfolding put_project
  put_project-ids [] e = refl
  put_project-ids (x ∷ xs) e = elim (Bool-cases (x.id == id)) [
    | inl q ↦ rw (q, put_project) (rw (e, (eq_iff x.id id).0 q) refl)
    | inr q ↦ rw (q, put_project) (ap (λ r. x.id ∷ r) (put_project-ids xs e))
  ]

  -- What is found after an entry was replaced.
  pub find-put_project :
      (j : String) (ps : List Project)
      → p.id ≡ id
      → find_project j (put_project id p ps) ≡ (
          if id == j
          then elim (find_project id ps) [ none ↦ none | some _ ↦ some p ]
          else find_project j ps)
  unfolding put_project find_project find
  find-put_project j [] e = ground arith
  find-put_project j (x ∷ xs) e =
      ground (
        arith,
        find-put_project j xs e,
        eq_iff x.id id,
        eq_iff id j,
        eq_iff x.id j,
        eq_iff p.id j,
        e,
      )

pub find-without :
    (id j : String) (ps : List Project)
    → find_project j (without_project id ps) ≡ (if id == j then none else find_project j ps)
unfolding without_project find_project find
find-without id j [] = ground arith
find-without id j (x ∷ xs) =
    ground (arith, find-without id j xs, eq_iff x.id id, eq_iff id j, eq_iff x.id j)

find-append :
    (j : String) (ps : List Project) (p : Project)
    → find_project j (ps ++ p ∷ [])
      ≡ elim (find_project j ps) [ some q ↦ some q | none ↦ if p.id == j then some p else none ]
unfolding find_project find
find-append j [] p = refl
find-append j (x ∷ xs) p = ground (arith, find-append j xs p)
