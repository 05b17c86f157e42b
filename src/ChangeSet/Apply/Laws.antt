-- ===== src/ChangeSet/Apply/Laws.antt =====
-- What the application of a change set touches.
use opm_api.Prelude.{
  String, Bool, true, false, not, ◌&&◌, none, some, List, [], ◌∷◌, ◌==◌, ◌≡◌, refl, is_empty, arith,
  Bool-cases, Option-cases, Result-cases, inl, inr,
}
use opm_api.ChangeSet.Normalize.{mode}
use opm_api.ChangeSet.Types.{FileChange, ChangeSet}
use opm_api.ChangeSet.Paths.{path_rejection}
use opm_api.ChangeSet.Apply.{
  within_root, Limits, ApplyOutcome, Workspace, nothing_yet, clean_path, first_refused,
  apply_delete, apply_write, apply_patch, apply_one, apply_files, preflight, apply_change_set,
}

-- No entry is a patch.
unfoldable pub no_patches : List FileChange → Bool
no_patches [] = true
no_patches (f ∷ fs) = not (mode f == "patch") && no_patches fs

-- The clean form of a path that is not rejected.
pub record Safe (rel : String) : Type 0 where
  pub path : String
  pub accepted : path_rejection path ≡ none
  pub cleaned : rel ≡ clean_path path

pub preflight-accepts :
    {S : Type 0} (ws : Workspace S) (limits : Limits) (files : List FileChange) (s : S)
    → preflight ws limits files s ≡ none
    → first_refused files ≡ none
unfolding preflight
preflight-accepts ws limits files s h = elim (Result-cases (ws.resolve s)) [
  | inl (u, e) ↦ ground (arith, h, e)
  | inr (why, e) ↦ absurd (ground (arith, h, e))
]

module _ {S : Type 0} (ws : Workspace S) (P : S → Type 0) where
  -- The operations on safe paths keep the property.
  pub record Keeps : Type 0 where
    pub remove_keeps : (rel : String) → Safe rel → (s : S) → P s → P (ws.remove rel s).1
    pub make_dir_keeps : (rel : String) → Safe rel → (s : S) → P s → P (ws.make_dir rel s).1
    pub write_keeps :
        (rel text : String) → Safe rel → (s : S) → P s → P (ws.write_file rel text s).1

  module _ (keeps : Keeps) where
    apply_one-Keeps :
        (f : FileChange) (rel : String) (out : ApplyOutcome) (s : S)
        → Safe rel
        → (mode f == "patch") ≡ false
        → P s
        → P (apply_one ws f rel out s).1
    unfolding apply_one apply_delete apply_write apply_patch
    apply_one-Keeps f rel out s safe n h = elim (Bool-cases (mode f == "delete")) [
      | inl d ↦ rw (d, apply_one) (keeps.remove_keeps rel safe s h)
      | inr d ↦ elim (Bool-cases (mode f == "write")) [
        | inl e ↦
            let text : String = elim f.contents [ none ↦ "" | some c ↦ c ] in
            let made = keeps.make_dir_keeps rel safe s h in
            rw (d, apply_one)
              (rw e (elim (Result-cases (ws.make_dir rel s).0) [
                | inl (u, k) ↦ rw (k, apply_write) (keeps.write_keeps rel text safe _ made)
                | inr (why, k) ↦ rw (k, apply_write) made
              ]))
        | inr e ↦ rw (d, apply_one) (rw (e, n) h)
      ]
    ]

    apply_files-Keeps :
        (fs : List FileChange) (out : ApplyOutcome) (s : S)
        → first_refused fs ≡ none
        → no_patches fs ≡ true
        → P s
        → P (apply_files ws fs out s).1
    unfolding apply_files first_refused no_patches
    apply_files-Keeps [] out s a n h = h
    apply_files-Keeps (f ∷ fs) out s a n h = elim (Option-cases (path_rejection f.path)) [
      | inr (why, r) ↦ absurd (ground (arith, a, r))
      | inl r ↦
          let rel = clean_path f.path in
          let safe : Safe rel = record { path = f.path; accepted = r; cleaned = refl } in
          let one = apply_one-Keeps f rel out s safe (ground (arith, n)) h in
          elim (Bool-cases (within_root rel)) [
            | inr b ↦ rw (b, apply_files) h
            | inl b ↦ elim (Option-cases (apply_one ws f rel out s).0.1) [
              | inr (why, e) ↦ rw (b, apply_files) (rw e one)
              | inl e ↦
                  rw (b, apply_files)
                    (rw e (apply_files-Keeps fs _ _ (ground (arith, a, r)) (ground (arith, n)) one))
            ]
          ]
    ]

    -- A change set with no patch among its entries: a property that the removal, the making of the
    -- directory and the writing keep at clean forms of accepted paths is kept by the application,
    -- whether it succeeds or fails: it removes and writes nothing at another path.
    pub apply_change_set-Keeps :
        (limits : Limits) (cs : ChangeSet) (s : S)
        → no_patches cs.files ≡ true
        → P s
        → P (apply_change_set ws limits cs s).1
    unfolding apply_change_set
    apply_change_set-Keeps limits cs s n h = elim (Option-cases (preflight ws limits cs.files s)) [
      | inr (why, e) ↦ rw (e, apply_change_set) h
      | inl e ↦
          let files =
            apply_files-Keeps cs.files nothing_yet s (preflight-accepts ws limits cs.files s e) n
              h in
          elim (Option-cases (apply_files ws cs.files nothing_yet s).0.1) [
            | inr (why, f) ↦ rw (e, apply_change_set) (rw f files)
            | inl f ↦
                elim (Bool-cases (is_empty (apply_files ws cs.files nothing_yet s).0.0.applied)) [
                  | inl k ↦ rw (e, apply_change_set) (rw (f, k) files)
                  | inr k ↦ rw (e, apply_change_set) (rw (f, k) files)
                ]
          ]
    ]
