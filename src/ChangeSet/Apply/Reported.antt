-- ===== src/ChangeSet/Apply/Reported.antt =====
-- What the application of a change set reports.
use opm_api.Prelude.{
  ◌<◌, String, Bool, true, false, ◌||◌, none, some, List, [], ◌∷◌, ◌<>◌, ◌==◌, ◌≡◌, refl, Result,
  ok, err, is_empty, length, arith, ◌++◌, sym, subst, ◌∙◌, Bool-cases, Option-cases, Result-cases,
  inl, inr,
}
use mathlib.Core.List.{append-nil, append_assoc}
use opm_api.World.{Done}
use opm_api.ChangeSet.Normalize.{mode}
use opm_api.ChangeSet.Types.{FileChange, ChangeSet}
use opm_api.ChangeSet.Apply.{
  add_applied, within_root, Limits, ApplyOutcome, Removed, removed, absent, stuck, Workspace,
  nothing_yet, clean_path, first_refused, after_remove, after_change, apply_delete, apply_write,
  apply_patch, apply_one, apply_files, preflight, apply_change_set,
}
use opm_api.ChangeSet.Apply.Laws.{preflight-accepts}

-- The entry has a change.
unfoldable pub has_change : FileChange → Bool
has_change f = mode f == "delete" || (mode f == "write" || mode f == "patch")

-- How the entries are reported: the clean path of each that has a change once, in order, as applied,
-- or, for a removal, as skipped.
pub data Reports : List FileChange → List String → List String → Type 0 where
  reported_all : Reports [] [] []
  unchanged :
      {f : FileChange} {fs : List FileChange} {applied skipped : List String}
      → has_change f ≡ false
      → Reports fs applied skipped
      → Reports (f ∷ fs) applied skipped
  as_applied :
      {f : FileChange} {fs : List FileChange} {applied skipped : List String}
      → has_change f ≡ true
      → Reports fs applied skipped
      → Reports (f ∷ fs) (clean_path f.path ∷ applied) skipped
  as_absent :
      {f : FileChange} {fs : List FileChange} {applied skipped : List String}
      → (mode f == "delete") ≡ true
      → Reports fs applied skipped
      → Reports (f ∷ fs) applied ((clean_path f.path <> " (already absent)") ∷ skipped)

-- What one entry adds to the outcome.
data Adds (f : FileChange) (rel : String) (out : ApplyOutcome) : ApplyOutcome → Type 0 where
  adds_nothing : has_change f ≡ false → Adds f rel out out
  adds_applied : has_change f ≡ true → Adds f rel out (add_applied rel out)
  adds_absent :
      (mode f == "delete") ≡ true
      → Adds f rel out (record out { skipped = out.skipped ++ (rel <> " (already absent)") ∷ [] })

after_remove-Adds :
    (f : FileChange) (rel : String) (out : ApplyOutcome) (r : Removed)
    → (mode f == "delete") ≡ true
    → (after_remove rel out r).1 ≡ none
    → Adds f rel out (after_remove rel out r).0
unfolding after_remove has_change
after_remove-Adds f rel out removed d h = adds_applied (rw (d, has_change) refl)
after_remove-Adds f rel out absent d h = adds_absent d
after_remove-Adds f rel out (stuck e) d h = absurd (ground (arith, h))

after_change-Adds :
    (f : FileChange) (rel : String) (out : ApplyOutcome) (what : String) (r : Result Done)
    → has_change f ≡ true
    → (after_change rel out what r).1 ≡ none
    → Adds f rel out (after_change rel out what r).0
unfolding after_change
after_change-Adds f rel out what (ok u) c h = adds_applied c
after_change-Adds f rel out what (err e) c h = absurd (ground (arith, h))

module _ {S : Type 0} (ws : Workspace S) where
  apply_one-Adds :
      (f : FileChange) (rel : String) (out : ApplyOutcome) (s : S)
      → (apply_one ws f rel out s).0.1 ≡ none
      → Adds f rel out (apply_one ws f rel out s).0.0
  unfolding apply_one apply_delete apply_write apply_patch has_change
  apply_one-Adds f rel out s h = elim (Bool-cases (mode f == "delete")) [
    | inl d ↦
        rw (d, apply_one)
          (after_remove-Adds f rel out (ws.remove rel s).0 d (rw (d, apply_one) at h))
    | inr d ↦ elim (Bool-cases (mode f == "write")) [
      | inl e ↦
          let text : String = elim f.contents [ none ↦ "" | some c ↦ c ] in
          let c : has_change f ≡ true = rw (d, has_change) (rw e refl) in
          let h' : (apply_write ws rel text out s).0.1 ≡ none = rw e at (rw (d, apply_one) at h) in
          rw (d, apply_one)
            (rw e (elim (Result-cases (ws.make_dir rel s).0) [
              | inl (u, k) ↦
                  rw (k, apply_write)
                    (after_change-Adds f rel out _ _ c (rw (k, apply_write) at h'))
              | inr (why, k) ↦ absurd (ground (arith, rw (k, apply_write) at h'))
            ]))
      | inr e ↦ elim (Bool-cases (mode f == "patch")) [
        | inl g ↦
            let c : has_change f ≡ true = rw (d, has_change) (rw (e, g) refl) in
            rw (d, apply_one)
              (rw (e, g)
                (after_change-Adds f rel out _ _ c (rw (e, g) at (rw (d, apply_one) at h))))
        | inr g ↦ rw (d, apply_one) (rw (e, g) (adds_nothing (rw (d, has_change) (rw (e, g) refl))))
      ]
    ]
  ]

  -- What a run over the entries adds to the outcome.
  record ReportsFrom (fs : List FileChange) (out out' : ApplyOutcome) : Type 0 where
    applied : List String
    skipped : List String
    all_applied : out'.applied ≡ out.applied ++ applied
    all_skipped : out'.skipped ≡ out.skipped ++ skipped
    reports : Reports fs applied skipped

  Adds-ReportsFrom :
      {f : FileChange} {fs : List FileChange} {out out₁ out' : ApplyOutcome}
      → Adds f (clean_path f.path) out out₁
      → ReportsFrom fs out₁ out'
      → ReportsFrom (f ∷ fs) out out'
  Adds-ReportsFrom (adds_nothing c) r = record {
    applied = r.applied;
    skipped = r.skipped;
    all_applied = r.all_applied;
    all_skipped = r.all_skipped;
    reports = unchanged c r.reports;
  }
  Adds-ReportsFrom {f} {fs} {out} (adds_applied c) r = record {
    applied = clean_path f.path ∷ r.applied;
    skipped = r.skipped;
    all_applied = r.all_applied ∙ append_assoc out.applied (clean_path f.path ∷ []) r.applied;
    all_skipped = r.all_skipped;
    reports = as_applied c r.reports;
  }
  Adds-ReportsFrom {f} {fs} {out} (adds_absent d) r = record {
    applied = r.applied;
    skipped = (clean_path f.path <> " (already absent)") ∷ r.skipped;
    all_applied = r.all_applied;
    all_skipped =
        r.all_skipped
        ∙ append_assoc out.skipped ((clean_path f.path <> " (already absent)") ∷ []) r.skipped;
    reports = as_absent d r.reports;
  }

  apply_files-ReportsFrom :
      (fs : List FileChange) (out : ApplyOutcome) (s : S)
      → (apply_files ws fs out s).0.1 ≡ none
      → ReportsFrom fs out (apply_files ws fs out s).0.0
  unfolding apply_files
  apply_files-ReportsFrom [] out s h = record {
    applied = [];
    skipped = [];
    all_applied = sym (append-nil out.applied);
    all_skipped = sym (append-nil out.skipped);
    reports = reported_all;
  }
  apply_files-ReportsFrom (f ∷ fs) out s h =
      let rel = clean_path f.path in
      elim (Bool-cases (within_root rel)) [
        | inr b ↦ absurd (ground (arith, rw (b, apply_files) at h))
        | inl b ↦ elim (Option-cases (apply_one ws f rel out s).0.1) [
          | inr (why, e) ↦ absurd (ground (arith, rw e at (rw (b, apply_files) at h)))
          | inl e ↦
              rw (b, apply_files)
                (rw e (
                  Adds-ReportsFrom (apply_one-Adds f rel out s e)
                    (apply_files-ReportsFrom fs _ _ (rw e at (rw (b, apply_files) at h)))))
        ]
      ]

  pub apply_change_set-reported :
      (limits : Limits) (cs : ChangeSet) (s : S)
      → (apply_change_set ws limits cs s).0.1 ≡ none
      → let out = (apply_change_set ws limits cs s).0.0 in
        (first_refused cs.files ≡ none)
        × (0 < length out.applied)
        × Reports cs.files out.applied out.skipped
  unfolding apply_change_set
  apply_change_set-reported limits cs s h = elim (Option-cases (preflight ws limits cs.files s)) [
    | inr (why, e) ↦ absurd (ground (arith, rw (e, apply_change_set) at h))
    | inl e ↦
        let h₁ = rw (e, apply_change_set) at h in
        let accepted = preflight-accepts ws limits cs.files s e in
        let files = apply_files ws cs.files nothing_yet s in
        elim (Option-cases files.0.1) [
          | inr (why, f) ↦ absurd (ground (arith, rw f at h₁))
          | inl f ↦ elim (Bool-cases (is_empty files.0.0.applied)) [
            | inl n ↦ absurd (ground (arith, rw (f, n) at h₁))
            | inr n ↦
                rw (e, apply_change_set)
                  (rw (f, n)
                    (
                      accepted,
                      nonempty files.0.0.applied n,
                      all_reported (apply_files-ReportsFrom cs.files nothing_yet s f),
                    ))
          ]
        ]
  ]
    where
      all_reported :
          {out : ApplyOutcome}
          → ReportsFrom cs.files nothing_yet out
          → Reports cs.files out.applied out.skipped
      all_reported {out} r =
          subst (λ xs. Reports cs.files xs out.skipped) (sym r.all_applied)
            (subst (λ xs. Reports cs.files r.applied xs) (sym r.all_skipped) r.reports)

      nonempty : (xs : List String) → is_empty xs ≡ false → 0 < length xs
      nonempty [] n = absurd (ground (arith, n))
      nonempty (x ∷ xs) n = ground arith
