-- ===== src/Store/Updating/Laws.antt =====
-- What a patch of a task can reach.
use opm_api.Prelude.{
  ℕ, String, Bool, Option, false, none, some, [], ◌==◌, ◌≡◌, refl, ◌∙◌, nat_eq, trim_space, ok,
  Bool-cases, inl, inr, ap, arith,
}
use opm_api.Models.{Time, Task}
use opm_api.World.{World}
use opm_api.Store.View.{stored_task}
use opm_api.Store.Agreement.{Agrees}
use opm_api.Store.Agreement.Mutating.{mutate_task-ok, mutate_task-Agrees}
use opm_api.Store.Updating.{
  Patch, where_given, clear_issue_link, set_issue_number, set_milestone_number, set_title,
  set_description, set_require_review, set_human_review, set_milestone_title, set_milestone_url,
  set_project_id, set_project_item_id, set_issue_url, set_issue_state, set_issue_title,
  apply_issue_patch, patch_task, update_task,
}

-- A task without what a patch may change.
unfoldable pub reserved : Task → Task
reserved t = record t {
  github_issue_number = 0;
  github_issue_url = "";
  github_issue_state = "";
  github_issue_title = "";
  github_issue_assignee = "";
  github_issue_labels = [];
  github_issue_synced_at = none;
  github_issue_sync_error = "";
  title = "";
  description = "";
  require_review_before_coding = false;
  human_review_required = none;
  github_milestone_number = 0;
  github_milestone_title = "";
  github_milestone_url = "";
  github_project_id = "";
  github_project_item_id = "";
  updated_at = 0;
}

abbrev Kept : (Task → Task) → Type 0
Kept f = (t : Task) → reserved (f t) ≡ reserved t

where_given-Kept :
    {A : Type 0} (o : Option A) (set : A → Task → Task)
    → ((v : A) → Kept (set v))
    → Kept (where_given o set)
unfolding where_given
where_given-Kept none set k t = refl
where_given-Kept (some v) set k t = k v t

set_title-Kept : (v : String) → Kept (set_title v)
unfolding set_title reserved clear_issue_link
set_title-Kept v t = elim (Bool-cases (trim_space v == "")) [
  | inl e ↦ ground arith
  | inr e ↦ ground arith
]

set_milestone_number-Kept : (v : ℕ) → Kept (set_milestone_number v)
unfolding set_milestone_number reserved clear_issue_link
set_milestone_number-Kept v t = elim (Bool-cases (nat_eq v 0)) [
  | inl e ↦ ground arith
  | inr e ↦ ground arith
]

set_issue_number-Kept : (v : ℕ) → Kept (set_issue_number v)
unfolding set_issue_number reserved clear_issue_link
set_issue_number-Kept v t = elim (Bool-cases (nat_eq v 0)) [
  | inl e ↦ ground arith
  | inr e ↦ ground arith
]

apply_issue_patch-Kept : (patch : Patch) → Kept (apply_issue_patch patch)
unfolding apply_issue_patch reserved clear_issue_link
apply_issue_patch-Kept patch t =
    where_given-Kept _ set_issue_title (λ v u. refl) _
    ∙ where_given-Kept _ set_issue_state (λ v u. refl) _
    ∙ where_given-Kept _ set_issue_url (λ v u. refl) _
    ∙ where_given-Kept _ set_issue_number set_issue_number-Kept t

set_project_item_id-Kept : (v : String) → Kept (set_project_item_id v)
unfolding reserved clear_issue_link
set_project_item_id-Kept v t = refl

set_project_id-Kept : (v : String) → Kept (set_project_id v)
unfolding reserved clear_issue_link
set_project_id-Kept v t = refl

set_milestone_url-Kept : (v : String) → Kept (set_milestone_url v)
unfolding reserved clear_issue_link
set_milestone_url-Kept v t = refl

set_milestone_title-Kept : (v : String) → Kept (set_milestone_title v)
unfolding reserved clear_issue_link
set_milestone_title-Kept v t = refl

set_human_review-Kept : (v : Bool) → Kept (set_human_review v)
unfolding reserved clear_issue_link
set_human_review-Kept v t = refl

set_require_review-Kept : (v : Bool) → Kept (set_require_review v)
unfolding reserved clear_issue_link
set_require_review-Kept v t = refl

set_description-Kept : (v : String) → Kept (set_description v)
unfolding reserved clear_issue_link
set_description-Kept v t = refl

patch_task-Kept : (patch : Patch) → Kept (patch_task patch)
unfolding patch_task
patch_task-Kept patch t =
    apply_issue_patch-Kept patch _
    ∙ where_given-Kept _ set_project_item_id set_project_item_id-Kept _
    ∙ where_given-Kept _ set_project_id set_project_id-Kept _
    ∙ where_given-Kept _ set_milestone_url set_milestone_url-Kept _
    ∙ where_given-Kept _ set_milestone_title set_milestone_title-Kept _
    ∙ where_given-Kept _ set_milestone_number set_milestone_number-Kept _
    ∙ where_given-Kept _ set_human_review set_human_review-Kept _
    ∙ where_given-Kept _ set_require_review set_require_review-Kept _
    ∙ where_given-Kept _ set_description set_description-Kept _
    ∙ where_given-Kept _ set_title set_title-Kept t

-- The status is out of a patch's reach.
same_status : (t u : Task) → reserved t ≡ reserved u → t.status ≡ u.status
unfolding reserved clear_issue_link
same_status t u h = ap (λ x. x.status) h

module _ (now : Time) (spec_id : String) (patch : Patch) where
  -- An `UpdateTask` that succeeds, whatever the patch, returns and stores a task that has the status,
  -- the ids, the delivery and the other fields out of a patch's reach as before, and keeps the board
  -- and the stored tasks in agreement.
  pub update_task-reserved :
      (id : String) (w : World) {t : Task}
      → (update_task now id spec_id patch w).0 ≡ ok t
      → Agrees id w
      → (t₀ : Task) × (stored_task id spec_id w ≡ some t₀)
        × (reserved t ≡ reserved t₀)
        × (stored_task id spec_id (update_task now id spec_id patch w).1 ≡ some t)
        × Agrees id (update_task now id spec_id patch w).1
  unfolding update_task reserved clear_issue_link
  update_task-reserved id w {t} h a =
      let m = mutate_task-ok now spec_id (patch_task patch) id w h in
      let (t₀, e, q) = m.made in
      (
        t₀,
        e,
        ap reserved q ∙ patch_task-Kept patch t₀,
        m.stored,
        mutate_task-Agrees now spec_id (patch_task patch) id w
            (λ u. same_status (patch_task patch u) u (patch_task-Kept patch u)) h a,
      )
