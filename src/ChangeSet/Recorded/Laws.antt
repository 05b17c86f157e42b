-- ===== src/ChangeSet/Recorded/Laws.antt =====
-- Recording, reading and clearing a change set in a ready project.
use opm_api.Prelude.{
  String, Option, none, some, ok, ◌≡◌, refl, sym, subst, ap, Option-cases, inl, inr,
}
use opm_api.Models.{Time, Project}
use opm_api.World.{File, World}
use opm_api.Store.Tasks.{read, read_spec}
use opm_api.Store.Running.{View, At, Leads, Leads-then, Leads-with_project, Leads-write_spec}
use opm_api.ChangeSet.Types.{ChangeSet}
use opm_api.ChangeSet.Merge.{merge_change_set}
use opm_api.ChangeSet.Merge.Laws.{last_at, overridden, merge_files-overridden}
use opm_api.ChangeSet.Recorded.{
  no_changes, remove_changes, dated, put_change_set, get_change_set, put_change_set_merged,
  clear_change_set,
}

abbrev pub recorded : View → ChangeSet
recorded v = elim v.spec.changes [ none ↦ no_changes | some cs ↦ cs ]

abbrev pub with_changes : Option ChangeSet → View → View
with_changes cs v = record v { spec = record (v.spec) { changes = cs } }

module _ (p : Project) (s : String) (now : Time) {v : View} {w : World} (h : At p s v w) where
  put_change_set-Leads :
      (cs : ChangeSet)
      → Leads p s (put_change_set now p.id s cs) w tt (with_changes (some (dated now cs)) v)
  unfolding put_change_set
  put_change_set-Leads cs = Leads-with_project p s now _ h (Leads-write_spec p s File.changes _ h)

  pub get_change_set-Leads : Leads p s (get_change_set now p.id s) w (recorded v) v
  unfolding get_change_set read_spec read
  get_change_set-Leads = Leads-with_project p s now _ h (record {
    after = w;
    runs_to =
        rw (h.same_spec, read)
          (elim (Option-cases v.spec.changes) [ inl e ↦ rw e | inr (g, e) ↦ rw e ]);
    at = h;
  })

  pub clear_change_set-Leads : Leads p s (clear_change_set now p.id s) w tt (with_changes none v)
  unfolding clear_change_set
  clear_change_set-Leads =
      Leads-with_project p s now (λ q. remove_changes q s) h
        (elim (Option-cases v.spec.changes) [
          | inl e ↦
              let same : with_changes none v ≡ v = ap (λ c. with_changes c v) (sym e) in
              subst (λ x. Leads p s (remove_changes p s) w tt x) (sym same)
                (record {
                  after = w;
                  runs_to = rw (h.same_spec, remove_changes) (rw e refl);
                  at = h;
                })
          | inr (cs, e) ↦
              let l = Leads-write_spec p s File.changes (λ d. record d { changes = none }) h in
              record {
                after = l.after;
                runs_to = rw (h.same_spec, remove_changes) (rw e l.runs_to);
                at = l.at;
              }
        ])

module _ (p : Project) (s : String) (now : Time) {v : View} {w : World} (h : At p s v w) where
  pub merged-Leads :
      (delta : ChangeSet)
      → Leads p s
          (put_change_set_merged now p.id s delta)
          w
          tt
          (with_changes (some (dated now (merge_change_set now (recorded v) delta))) v)
  unfolding put_change_set_merged
  merged-Leads delta =
      let l = get_change_set-Leads p s now h in
      Leads-then p s _ _ l
        (put_change_set-Leads p s now l.at (merge_change_set now (recorded v) delta))

  -- In a ready project, what is read after a merging write has, at each path, the entry of the new
  -- change set where it has one, and else the one that was recorded. After a clearing, which
  -- succeeds, what is read is the empty change set.
  pub put_merged-get-clear :
      (delta : ChangeSet) (path : String)
      → (cs : ChangeSet) × (w₁ : World) × (w₂ : World) × (put_change_set_merged now p.id s delta w
          ≡ (ok tt, w₁))
        × ((get_change_set now p.id s w₁).0 ≡ ok cs)
        × (last_at cs.files path
            ≡ overridden (last_at (recorded v).files) (last_at delta.files) path)
        × (clear_change_set now p.id s w₁ ≡ (ok tt, w₂))
        × ((get_change_set now p.id s w₂).0 ≡ ok no_changes)
  unfolding dated merge_change_set
  put_merged-get-clear delta path =
      let l₁ = merged-Leads delta in
      let l₂ = get_change_set-Leads p s now l₁.at in
      let l₃ = clear_change_set-Leads p s now l₁.at in
      let l₄ = get_change_set-Leads p s now l₃.at in
      (
        _,
        l₁.after,
        l₃.after,
        l₁.runs_to,
        ap (λ o. o.0) l₂.runs_to,
        merge_files-overridden (recorded v).files delta.files path,
        l₃.runs_to,
        ap (λ o. o.0) l₄.runs_to,
      )
