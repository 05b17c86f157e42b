-- ===== src/Delivery/Faults.antt =====
-- The statuses and codes of deliveries that fail.
use opm_api.Prelude.{
  ◌≤◌, String, Bool, true, false, Option, none, some, List, [], ◌∷◌, ◌≡◌, refl, arith, ◌==◌, Result,
  ok, err, is_empty, contains, nat_eq, Bool-cases, Option-cases, Result-cases, subst, inl, inr,
  ◌||◌, ◌&&◌, ltb, length, trim_space, contains_text, to_lower, if◌then◌else◌,
}
use opm_api.ChangeSet.Types.{FileChange, ChangeSet}
use opm_api.ChangeSet.Normalize.{mode}
use opm_api.ChangeSet.Apply.{
  within_root, Limits, ApplyOutcome, Removed, Applied, Workspace, removed, absent, stuck,
  nothing_yet, after_remove, after_change, apply_delete, apply_write, apply_patch, apply_one,
  apply_files, preflight, first_refused, total_bytes, apply_change_set, clean_path,
}
use opm_api.Delivery.{Fault, fault, other, delivery_http_code, delivery_fault_status}
use opm_api.Delivery.Git.{
  GitHost, GitRunner, Printed, Attempt, done, failed, CommitOutcome, Act, then_do, unless_failed,
  nothing_staged, commit_staged, after_push, run, must_run, git_commit_on_branch, push_fault,
  git_push_branch,
}

-- The status is not empty, and its code is that of a client's or a server's error.
abbrev pub IsFault : String → Type 0
IsFault status = ((status == "") ≡ false) × (400 ≤ delivery_http_code status)

if-IsFault : (b : Bool) (x y : String) → IsFault x → IsFault y → IsFault (if b then x else y)
if-IsFault true x y h k = h
if-IsFault false x y h k = k

pub delivery_fault_status-IsFault : (f : Fault) → IsFault (delivery_fault_status f)
unfolding delivery_fault_status delivery_http_code contains
delivery_fault_status-IsFault (other e) = (refl, omega arith)
delivery_fault_status-IsFault (fault f) =
    if-IsFault (f.status == "missing_pull_requests_permission") _ _ (refl, omega arith)
      (if-IsFault (f.status == "missing_contents_permission") _ _ (refl, omega arith)
        (if-IsFault (f.status == "no_commits_between") _ _ (refl, omega arith)
          (if-IsFault (f.status == "head_branch_not_found") _ _ (refl, omega arith)
            (if-IsFault (nat_eq f.http_status 403) _ _ (refl, omega arith) (refl, omega arith)))))

-- The application of a change set.

-- No error, or a status that is a fault.
abbrev pub Reported : Applied → Type 0
Reported (out, none) = Unit {0}
Reported (out, some why) = IsFault out.status

Reported-after_remove :
    (rel : String) (out : ApplyOutcome) (r : Removed) → Reported (after_remove rel out r)
unfolding after_remove delivery_http_code contains
Reported-after_remove rel out removed = tt
Reported-after_remove rel out absent = tt
Reported-after_remove rel out (stuck e) = (refl, omega arith)

Reported-after_change :
    (rel : String) (out : ApplyOutcome) (what : String) (r : Result (Unit {0}))
    → Reported (after_change rel out what r)
unfolding after_change delivery_http_code contains
Reported-after_change rel out what (ok _) = tt
Reported-after_change rel out what (err e) = (refl, omega arith)

module _ {S : Type 0} (ws : Workspace S) where
  Reported-apply_write :
      (rel text : String) (out : ApplyOutcome) (s : S) → Reported (apply_write ws rel text out s).0
  unfolding apply_write delivery_http_code contains
  Reported-apply_write rel text out s = elim (Result-cases (ws.make_dir rel s).0) [
    | inl (u, e) ↦ rw (e, apply_write) (Reported-after_change rel out _ _)
    | inr (why, e) ↦ rw (e, apply_write) (refl, omega arith)
  ]

  Reported-apply_one :
      (f : FileChange) (rel : String) (out : ApplyOutcome) (s : S)
      → Reported (apply_one ws f rel out s).0
  unfolding apply_one apply_delete apply_patch
  Reported-apply_one f rel out s = elim (Bool-cases (mode f == "delete")) [
    | inl d ↦ rw (d, apply_one) (Reported-after_remove rel out (ws.remove rel s).0)
    | inr d ↦ elim (Bool-cases (mode f == "write")) [
      | inl e ↦ rw (d, apply_one) (rw e (Reported-apply_write rel _ out s))
      | inr e ↦ elim (Bool-cases (mode f == "patch")) [
        | inl k ↦ rw (d, apply_one) (rw (e, k) (Reported-after_change rel out _ _))
        | inr k ↦ rw (d, apply_one) (rw (e, k) tt)
      ]
    ]
  ]

  Reported-apply_files :
      (fs : List FileChange) (out : ApplyOutcome) (s : S) → Reported (apply_files ws fs out s).0
  unfolding apply_files delivery_http_code contains
  Reported-apply_files [] out s = tt
  Reported-apply_files (f ∷ fs) out s =
      let rel = clean_path f.path in
      let one = apply_one ws f rel out s in
      elim (Bool-cases (within_root rel)) [
        | inr b ↦ rw (b, apply_files) (refl, omega arith)
        | inl b ↦ elim (Option-cases one.0.1) [
          | inr (why, e) ↦
              rw (b, apply_files)
                (rw e (subst (λ x. Reported (one.0.0, x)) e (Reported-apply_one f rel out s)))
          | inl e ↦ rw (b, apply_files) (rw e (Reported-apply_files fs one.0.0 one.1))
        ]
      ]

  -- What is checked first.
  Refused : Option (String × String) → Type 0
  Refused none = Unit {0}
  Refused (some (status, why)) = IsFault status

  Refused-preflight :
      (limits : Limits) (files : List FileChange) (s : S) → Refused (preflight ws limits files s)
  unfolding preflight delivery_http_code contains Refused
  Refused-preflight limits files s =
      let many = ltb 0 limits.max_files && ltb limits.max_files (length files) in
      let big = ltb 0 limits.max_bytes && ltb limits.max_bytes (total_bytes files) in
      elim (Bool-cases (is_empty files)) [
        | inl a ↦ rw (a, preflight) (refl, omega arith)
        | inr a ↦ elim (Bool-cases many) [
          | inl b ↦ rw (a, preflight) (rw b (refl, omega arith))
          | inr b ↦ elim (Result-cases (ws.resolve s)) [
            | inr (e, k) ↦ rw (a, preflight) (rw (b, k) (refl, omega arith))
            | inl (u, k) ↦ elim (Option-cases (first_refused files)) [
              | inr (why, c) ↦ rw (a, preflight) (rw (b, k, c) (refl, omega arith))
              | inl c ↦ elim (Bool-cases big) [
                | inl d ↦ rw (a, preflight) (rw (b, k, c, d) (refl, omega arith))
                | inr d ↦ rw (a, preflight) (rw (b, k, c, d) tt)
              ]
            ]
          ]
        ]
      ]

  pub Reported-apply_change_set :
      (limits : Limits) (cs : ChangeSet) (s : S) → Reported (apply_change_set ws limits cs s).0
  unfolding apply_change_set delivery_http_code contains Refused
  Reported-apply_change_set limits cs s =
      let all = apply_files ws cs.files nothing_yet s in
      elim (Option-cases (preflight ws limits cs.files s)) [
        | inr (why, e) ↦
            rw (e, apply_change_set) (subst Refused e (Refused-preflight limits cs.files s))
        | inl e ↦ elim (Option-cases all.0.1) [
          | inr (why, f) ↦
              rw (e, apply_change_set)
                (rw f (
                  subst (λ x. Reported (all.0.0, x)) f
                    (Reported-apply_files cs.files nothing_yet s)))
          | inl f ↦ elim (Bool-cases (is_empty all.0.0.applied)) [
            | inl n ↦ rw (e, apply_change_set) (rw (f, n) (refl, omega arith))
            | inr n ↦ rw (e, apply_change_set) (rw (f, n) tt)
          ]
        ]
      ]

-- Git.

-- A value of which `P` holds, or a status that is a fault.
abbrev pub Named : {A : Type 0} → (A → Type 0) → Attempt A → Type 0
Named P (done a) = P a
Named P (failed status why) = IsFault status

-- Whatever the host does, the action answers such a value or names its fault.
pub record Names {S A : Type 0} (P : A → Type 0) (m : Act S (Attempt A)) : Type 0 where
  pub at : (c : GitRunner × S) → Named P (m c).0

Names-if :
    {S A : Type 0} {P : A → Type 0} (b : Bool) (m n : Act S (Attempt A))
    → Names P m
    → Names P n
    → Names P (if b then m else n)
Names-if true m n h k = h
Names-if false m n h k = k

module _ {S : Type 0} (git : GitHost S) where
  Named-unless_failed :
      {A : Type 0} (P : A → Type 0) (e : Option String) (rest : Act S (Attempt A))
      (c : GitRunner × S)
      → Named P (rest c).0
      → Named P (unless_failed git e rest c).0
  unfolding unless_failed delivery_http_code contains
  Named-unless_failed P none rest c h = h
  Named-unless_failed P (some e) rest c h = (refl, omega arith)

  Names-must_run :
      {A : Type 0} {P : A → Type 0} (args : List String) (rest : String → Act S (Attempt A))
      → ((text : String) → Names P (rest text))
      → Names P (must_run git args rest)
  unfolding must_run then_do
  Names-must_run {P = P} args rest h = record {
    at = λ c.
        let (out, c') = run git args c in
        Named-unless_failed P out.error (rest out.text) c' ((h out.text).at c');
  }

  Names-then_run :
      {A : Type 0} {P : A → Type 0} (args : List String) (rest : Printed → Act S (Attempt A))
      → ((out : Printed) → Names P (rest out))
      → Names P (then_do (run git args) rest)
  unfolding then_do
  Names-then_run args rest h = record { at = λ c. (h (run git args c).0).at (run git args c).1 }

  Names-commit_staged :
      (name email : String) (out : CommitOutcome)
      → Names (λ o. o.staged ≡ out.staged) (commit_staged git name email out)
  unfolding commit_staged
  Names-commit_staged name email out =
      Names-must_run _ _ λ _. Names-must_run _ _ λ sha. record { at = λ c. refl }

  -- What a commit stages are the paths that it is given.
  pub Names-git_commit_on_branch :
      (name email branch message : String) (files : List String)
      → Names (λ o. o.staged ≡ files) (git_commit_on_branch git name email branch message files)
  unfolding git_commit_on_branch delivery_http_code contains
  Names-git_commit_on_branch name email branch message files =
      Names-if (is_empty files) _ _ (record { at = λ c. (refl, omega arith) })
        (Names-must_run _ _ λ _. Names-must_run _ _ λ _. Names-then_run _ _ λ diff.
          Names-if (nothing_staged git diff) _ _ (record { at = λ c. (refl, omega arith) })
            (Names-commit_staged name email _))

  push_fault-IsFault : (branch out e : String) → IsFault (push_fault git branch out e).0
  unfolding push_fault delivery_http_code contains
  push_fault-IsFault branch out e =
      let low = to_lower out in
      elim (Bool-cases (
        contains_text low "non-fast-forward"
        || contains_text low "rejected"
        || contains_text low "fetch first")) [
          | inl k ↦ rw (k, push_fault) (refl, omega arith)
          | inr k ↦
              elim (Bool-cases (
                contains_text low "403"
                || contains_text low "permission"
                || contains_text low "authentication failed"
                || contains_text low "denied")) [
                  | inl l ↦ rw (k, push_fault) (rw l (refl, omega arith))
                  | inr l ↦ rw (k, push_fault) (rw l (refl, omega arith))
                ]
        ]

  pub Names-git_push_branch :
      (remote_url branch : String) → Names (λ _. Unit {0}) (git_push_branch git remote_url branch)
  unfolding git_push_branch delivery_http_code contains after_push
  Names-git_push_branch remote_url branch =
      Names-if (trim_space remote_url == "") _ _ (record { at = λ c. (refl, omega arith) })
        (Names-then_run _ _ λ out. record { at = λ c. pushed out })
    where
      pushed : (out : Printed) → Named (λ _. Unit {0}) (after_push git branch out)
      pushed out = elim (Option-cases out.error) [
        | inl k ↦ rw (k, after_push) tt
        | inr (e, k) ↦ rw (k, after_push) (push_fault-IsFault branch out.text e)
      ]
