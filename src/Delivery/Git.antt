-- ===== src/Delivery/Git.antt =====
-- delivery_git.go: git in the workspace of a delivery, with the credential of the push.
use opm_api.Prelude.{
  String, Bool, true, false, ◌||◌, Option, none, some, List, [], ◌∷◌, ◌<>◌, ◌==◌, Result, ok, err,
  is_empty, ltb, trim_space, to_lower, contains_text, replace_all, truncate_runes, if◌then◌else◌,
}
use Prim.Native.String.{len}
use opm_api.World.{Done}

-- What a command printed, and its error or nil.
pub record Printed : Type 0 where
  pub text : String
  pub error : Option String

-- The host: a command in the workspace, with the token in its environment if there is one, and the
-- helper script that prints it.
pub record GitHost (S : Type 0) : Type 0 where
  pub exec : Option String → List String → S → Printed × S
  pub write_ask_pass : S → Result Done × S
  pub remove_ask_pass : S → S

-- `ask_pass` tells whether the helper is there.
pub record GitRunner : Type 0 where
  pub token : String
  pub ask_pass : Bool

abbrev pub new_git_runner : GitRunner
new_git_runner = record { token = ""; ask_pass = false }

unfoldable pub redact_secret : String → String → String
unfolding trim_space replace_all
redact_secret text secret =
    let s = trim_space secret in if ltb (len s) 8 then text else replace_all text s "[redacted]"

-- A value, or the status and the error of a failure.
pub data Attempt (A : Type 0) : Type 0 where
  done : A → Attempt A
  failed : String → String → Attempt A

pub record CommitOutcome : Type 0 where
  pub branch : String
  pub sha : String
  pub staged : List String
  pub message : String

abbrev first_word : List String → String
first_word [] = ""
first_word (a ∷ _) = a

-- An action of a runner on its host.
abbrev pub Act : Type 0 → Type 0 → Type 0
Act S A = GitRunner × S → A × (GitRunner × S)

module _ {S A : Type 0} where
  abbrev pub answer : A → Act S A
  answer a c = (a, c)

module _ {S A B : Type 0} where
  unfoldable pub then_do : Act S A → (A → Act S B) → Act S B
  then_do m f c = let (a, c') = m c in f a c'

module _ {S : Type 0} (git : GitHost S) where
  -- The helper is written before the first command that has a token.
  unfoldable pub ensure_ask_pass : Act S (Result Done)
  ensure_ask_pass (g, s) =
      if g.ask_pass || g.token == ""
      then (ok tt, (g, s))
      else (let (r, s') = git.write_ask_pass s in
          elim r [ err e ↦ (err e, (g, s')) | ok _ ↦ (ok tt, (record g { ask_pass = true }, s')) ])

  unfoldable pub close : GitRunner × S → GitRunner × S
  close (g, s) = (new_git_runner, if g.ask_pass then git.remove_ask_pass s else s)

  unfoldable pub with_token : String → GitRunner × S → GitRunner × S
  unfolding trim_space
  with_token token (g, s) = (record g { token = trim_space token }, s)

  abbrev run_error : List String → String → String → String
  run_error args text e =
      "git " <> first_word args <> ": " <> e <> " (" <> trim_space (truncate_runes text 400) <> ")"

  unfoldable pub run : List String → Act S Printed
  unfolding ensure_ask_pass redact_secret
  run args (g, s) =
      let (ready, (g₁, s₁)) = ensure_ask_pass (g, s) in
      elim ready [
        | err e ↦ (record { text = ""; error = some e }, (g₁, s₁))
        | ok _ ↦
            let (out, s₂) = git.exec (if g₁.token == "" then none else some g₁.token) args s₁ in
            let text = redact_secret out.text g₁.token in
            (
              record {
                text = text;
                error = elim out.error [ none ↦ none | some e ↦ some (run_error args text e) ];
              },
              (g₁, s₂),
            )
      ]

  unfoldable pub unless_failed :
      {A : Type 0} → Option String → Act S (Attempt A) → Act S (Attempt A)
  unless_failed (some e) rest c = (failed "git_failed" e, c)
  unless_failed none rest c = rest c

  -- A command whose failure is `git_failed`.
  unfoldable pub must_run :
      {A : Type 0} → List String → (String → Act S (Attempt A)) → Act S (Attempt A)
  unfolding unless_failed then_do
  must_run args rest = then_do (run args) λ out. unless_failed out.error (rest out.text)

  -- Whether `git diff --cached` shows that nothing is staged.
  abbrev pub nothing_staged : Printed → Bool
  nothing_staged out = elim out.error [ some _ ↦ false | none ↦ trim_space out.text == "" ]

  -- The commit of what is staged.
  unfoldable pub commit_staged : String → String → CommitOutcome → Act S (Attempt CommitOutcome)
  commit_staged name email out =
      must_run
        ("-c"
          ∷ ("user.name=" <> name)
          ∷ "-c"
          ∷ ("user.email=" <> email)
          ∷ "commit"
          ∷ "--no-verify"
          ∷ "-m"
          ∷ out.message
          ∷ [])
        λ _.
          must_run ("rev-parse" ∷ "HEAD" ∷ [])
            λ sha. answer (done (record out { sha = trim_space sha }))

  -- `name` and `email` are what `gitIdentity` reads from the environment. On a failure the source
  -- returns a part of the outcome too, which its callers drop.
  unfoldable pub git_commit_on_branch :
      String → String → String → String → List String → Act S (Attempt CommitOutcome)
  git_commit_on_branch name email branch message files =
      if is_empty files
      then answer (failed "no_changes_produced" "nothing to stage")
      else must_run ("checkout" ∷ "-b" ∷ branch ∷ []) λ _. must_run ("add" ∷ "--" ∷ files) λ _.
        then_do (run ("diff" ∷ "--cached" ∷ "--name-only" ∷ [])) λ diff.
          if nothing_staged diff
          then answer (
              failed "no_changes_produced"
                "the change set is identical to the current branch — nothing to commit")
          else commit_staged name email
              (record { branch = branch; sha = ""; staged = files; message = message })

  -- What a push that failed is called, by what git printed.
  unfoldable pub push_fault : String → String → String → String × String
  unfolding to_lower contains_text truncate_runes trim_space
  push_fault branch out e =
      let low = to_lower out in
      if contains_text low "non-fast-forward"
        || contains_text low "rejected"
        || contains_text low "fetch first"
      then (
        "push_rejected",
        "push rejected — the branch "
            <> branch
            <> " already exists on the remote with different commits: "
            <> trim_space (truncate_runes out 300),
      )
      else if contains_text low "403"
          || contains_text low "permission"
          || contains_text low "authentication failed"
          || contains_text low "denied"
      then (
        "missing_contents_permission",
        "push refused by the remote — the credential lacks write access: "
            <> trim_space (truncate_runes out 300),
      )
      else ("push_failed", e)

  abbrev pub push_args : String → String → List String
  push_args remote_url branch =
      "push" ∷ remote_url ∷ ("refs/heads/" <> branch <> ":refs/heads/" <> branch) ∷ []

  unfoldable pub after_push : String → Printed → Attempt String
  unfolding push_fault
  after_push branch out = elim out.error [
    | none ↦ done out.text
    | some e ↦ (let (status, why) = push_fault branch out.text e in failed status why)
  ]

  unfoldable pub git_push_branch : String → String → Act S (Attempt String)
  unfolding after_push
  git_push_branch remote_url branch =
      if trim_space remote_url == ""
      then answer (failed "push_rejected" "no push URL available")
      else then_do (run (push_args remote_url branch)) λ out. answer (after_push branch out)
