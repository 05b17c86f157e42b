-- ===== src/Delivery/Running/Commands.antt =====
-- The git commands that a commit and a push of delivery_git.go have run when they succeed.
use opm_api.Prelude.{
  String, false, none, List, [], ◌∷◌, ◌<>◌, ◌==◌, ◌≡◌, refl, ap, ◌∙◌, sym, arith, is_empty, subst,
  trim_space, Bool-cases, Option-cases, inl, inr,
}
use opm_api.Delivery.Git.{
  GitHost, GitRunner, Printed, Attempt, done, failed, CommitOutcome, Act, run, unless_failed,
  must_run, nothing_staged, commit_staged, git_commit_on_branch, after_push, git_push_branch,
}

module _ {S : Type 0} (git : GitHost S) where
  -- The command ran without an error and printed the text.
  pub record Runs (args : List String) (c : GitRunner × S) (text : String) (c' : GitRunner × S)
      : Type 0 where
    pub ran : run git args c ≡ (record { text = text; error = none }, c')

  pub record MustRun {A : Type 0} (args : List String) (rest : String → Act S (Attempt A))
      (c : GitRunner × S) : Type 0 where
    pub text : String
    pub after : GitRunner × S
    pub runs : Runs args c text after
    pub goes_on : must_run git args rest c ≡ rest text after

  must_run-ok :
      {A : Type 0} (args : List String) (rest : String → Act S (Attempt A)) (c : GitRunner × S)
      {x : A}
      → (must_run git args rest c).0 ≡ done x
      → MustRun args rest c
  unfolding must_run unless_failed opm_api.Delivery.Git.then_do
  must_run-ok args rest c h =
      let r = run git args c in
      elim (Option-cases r.0.error) [
        | inr (e, k) ↦ absurd (ground (arith, rw k at h))
        | inl k ↦ record {
          text = r.0.text;
          after = r.1;
          runs = record { ran = ap (λ e. (record { text = r.0.text; error = e }, r.1)) k };
          goes_on = rw k refl;
        }
      ]

  -- What a commit on a branch has run: the branch is created, exactly the files are staged, something
  -- was, and it is committed; the identifier is what `rev-parse HEAD` prints then.
  pub record Commits (name email branch message : String) (files : List String) (c : GitRunner × S)
      (sha : String) (c' : GitRunner × S) : Type 0 where
    pub some_files : is_empty files ≡ false
    pub checkout_text : String
    pub on_branch : GitRunner × S
    pub checked_out : Runs ("checkout" ∷ "-b" ∷ branch ∷ []) c checkout_text on_branch
    pub add_text : String
    pub staged : GitRunner × S
    pub added : Runs ("add" ∷ "--" ∷ files) on_branch add_text staged
    pub something :
        nothing_staged git (run git ("diff" ∷ "--cached" ∷ "--name-only" ∷ []) staged).0 ≡ false
    pub commit_text : String
    pub on_commit : GitRunner × S
    pub committed :
        Runs
          ("-c"
            ∷ ("user.name=" <> name)
            ∷ "-c"
            ∷ ("user.email=" <> email)
            ∷ "commit"
            ∷ "--no-verify"
            ∷ "-m"
            ∷ message
            ∷ [])
          (run git ("diff" ∷ "--cached" ∷ "--name-only" ∷ []) staged).1
          commit_text
          on_commit
    pub head : String
    pub headed : Runs ("rev-parse" ∷ "HEAD" ∷ []) on_commit head c'
    pub named : sha ≡ trim_space head

  pub git_commit_on_branch-Commits :
      (name email branch message : String) (files : List String) (c : GitRunner × S)
      {x : CommitOutcome}
      → (git_commit_on_branch git name email branch message files c).0 ≡ done x
      → Commits name email branch message files c x.sha
          (git_commit_on_branch git name email branch message files c).1
  unfolding git_commit_on_branch commit_staged opm_api.Delivery.Git.then_do
  git_commit_on_branch-Commits name email branch message files c {x} h =
      elim (Bool-cases (is_empty files)) [
        | inl e ↦ absurd (ground (arith, rw (e, git_commit_on_branch) at h))
        | inr e ↦
            let h₀ = rw (e, git_commit_on_branch) at h in
            let m₁ = must_run-ok ("checkout" ∷ "-b" ∷ branch ∷ []) _ c h₀ in
            let h₁ = ap (λ o. o.0) (sym m₁.goes_on) ∙ h₀ in
            let m₂ = must_run-ok ("add" ∷ "--" ∷ files) _ m₁.after h₁ in
            let h₂ = ap (λ o. o.0) (sym m₂.goes_on) ∙ h₁ in
            let diff = run git ("diff" ∷ "--cached" ∷ "--name-only" ∷ []) m₂.after in
            elim (Bool-cases (nothing_staged git diff.0)) [
              | inl k ↦ absurd (ground (arith, rw k at h₂))
              | inr k ↦
                  let h₃ = rw k at h₂ in
                  let m₃ = must_run-ok _ _ diff.1 h₃ in
                  let h₄ = ap (λ o. o.0) (sym m₃.goes_on) ∙ h₃ in
                  let m₄ = must_run-ok ("rev-parse" ∷ "HEAD" ∷ []) _ m₃.after h₄ in
                  let h₅ = ap (λ o. o.0) (sym m₄.goes_on) ∙ h₄ in
                  rw (e, git_commit_on_branch)
                    (subst is_so (sym (m₁.goes_on ∙ m₂.goes_on)) (
                      rw k (
                        subst is_so (sym (m₃.goes_on ∙ m₄.goes_on)) (record {
                          some_files = e;
                          checkout_text = m₁.text;
                          on_branch = m₁.after;
                          checked_out = m₁.runs;
                          add_text = m₂.text;
                          staged = m₂.after;
                          added = m₂.runs;
                          something = k;
                          commit_text = m₃.text;
                          on_commit = m₃.after;
                          committed = m₃.runs;
                          head = m₄.text;
                          headed = m₄.runs;
                          named = ap sha_of (sym h₅);
                        }))))
            ]
      ]
    where
      is_so : Attempt CommitOutcome × (GitRunner × S) → Type 0
      is_so o = Commits name email branch message files c x.sha o.1

      sha_of : Attempt CommitOutcome → String
      sha_of (done o) = o.sha
      sha_of (failed _ _) = ""

  -- What a push has run: of the branch to the branch of the same name.
  pub git_push_branch-Runs :
      (url branch : String) (c : GitRunner × S) {text : String}
      → (git_push_branch git url branch c).0 ≡ done text
      → Runs
          ("push" ∷ url ∷ ("refs/heads/" <> branch <> ":refs/heads/" <> branch) ∷ [])
          c
          text
          (git_push_branch git url branch c).1
  unfolding git_push_branch after_push opm_api.Delivery.Git.then_do
  git_push_branch-Runs url branch c {text} h = elim (Bool-cases (trim_space url == "")) [
    | inl e ↦ absurd (ground (arith, rw (e, git_push_branch) at h))
    | inr e ↦
        let r =
          run git ("push" ∷ url ∷ ("refs/heads/" <> branch <> ":refs/heads/" <> branch) ∷ []) c in
        let h₁ = rw (e, git_push_branch) at h in
        elim (Option-cases r.0.error) [
          | inr (why, k) ↦ absurd (ground (arith, rw (k, after_push) at h₁))
          | inl k ↦
              let h₂ = rw (k, after_push) at h₁ in
              rw (e, git_push_branch)
                (record {
                  ran =
                      ap (λ x. (record { text = r.0.text; error = x }, r.1)) k
                      ∙ ap (λ x. (record { text = text_of x; error = none }, r.1)) h₂;
                })
        ]
  ]
    where
      text_of : Attempt String → String
      text_of (done t) = t
      text_of (failed _ _) = ""
