-- ===== src/ChangeSet/Paths/Laws.antt =====
-- A path that is accepted does not leave the workspace.
use Prim.Native.Char.{Char, code}
use Prim.Native.String.append
use Prim.Native.String.{[] as empty, ◌∷◌ as ◌⋄◌}
use text.Mathlib.TextLemmas.{append_assoc}
use opm_api.Prelude.{
  String, Bool, true, false, not, ◌&&◌, ◌||◌, Option, none, some, List, [], ◌∷◌, ◌<>◌, ◌==◌, ◌≡◌,
  refl, ap, sym, ◌∙◌, nat_eq, contains, has_prefix, join, onto_first, split, trim_space, arith,
  eq_iff, if◌then◌else◌, Bool-cases, inl, inr, is_empty,
}
use opm_api.ChangeSet.Paths.{clean_step, clean_segs, reverse_onto, clean, path_text, path_rejection}

unfoldable slash_free : String → Bool
slash_free empty = true
slash_free (c ⋄ s) = not (nat_eq (code c) (code "/")) && slash_free s

unfoldable all_free : List String → Bool
unfolding slash_free
all_free [] = true
all_free (s ∷ ss) = slash_free s && all_free ss

free-onto_first :
    (c : Char) (xs : List String)
    → nat_eq (code c) (code "/") ≡ false
    → all_free xs ≡ true
    → all_free (onto_first c xs) ≡ true
unfolding all_free slash_free
free-onto_first c [] n h = rw n refl
free-onto_first c (x ∷ xs) n h = rw n h

split-all_free : (s : String) → all_free (split s "/") ≡ true
unfolding all_free slash_free split
split-all_free empty = refl
split-all_free (c ⋄ s) = elim (Bool-cases (nat_eq (code c) (code "/"))) [
  | inl e ↦ rw (e, split) (split-all_free s)
  | inr e ↦ rw (e, split) (free-onto_first c (split s "/") e (split-all_free s))
]

split-single : (x : String) → slash_free x ≡ true → split x "/" ≡ x ∷ []
unfolding slash_free split
split-single empty h = refl
split-single (c ⋄ s) h = ground (arith, split-single s, h)

split-cons : (x y : String) → slash_free x ≡ true → split (x <> "/" <> y) "/" ≡ x ∷ split y "/"
unfolding slash_free split
split-cons empty y h =
    ap (λ r. split r "/")
      (append.nil ("/" <> y) ∙ append.cons "/" empty y ∙ ap (λ r. "/" ⋄ r) (append.nil y))
split-cons (c ⋄ s) y h =
    ap (λ r. split r "/") (append.cons c s ("/" <> y)) ∙ ground (arith, split-cons s y, h)

-- The descend through the elements of a path, from the root of the workspace: the elements below it, the
-- last one first, and `none` once it leaves the root.
unfoldable pub descend : List String → List String → Option (List String)
descend at [] = some at
descend at (s ∷ ss) =
    if s == "" || s == "."
    then descend at ss
    else if s == ".."
    then elim at [ [] ↦ none | _ ∷ up ↦ descend up ss ]
    else descend (s ∷ at) ss

split-join :
    (x : String) (xs : List String)
    → all_free (x ∷ xs) ≡ true
    → split (join "/" (x ∷ xs)) "/" ≡ x ∷ xs
unfolding all_free join
split-join x [] h = split-single x (ground (arith, h))
split-join x (y ∷ ys) h =
    split-cons x (join "/" (y ∷ ys)) (ground (arith, h))
    ∙ ap (λ r. x ∷ r) (split-join y ys (ground (arith, h)))

-- The element changes nothing, or leads up, or is entered.
abbrev is_skipped : String → Bool
is_skipped s = s == "" || s == "."

clean_step-skipped : (out : List String) (s : String) → is_skipped s ≡ true → clean_step out s ≡ out
unfolding clean_step
clean_step-skipped out s e = rw e refl

clean_step-entered :
    (out : List String) (s : String)
    → is_skipped s ≡ false
    → (s == "..") ≡ false
    → clean_step out s ≡ s ∷ out
unfolding clean_step
clean_step-entered out s e u = rw (e, u) refl

clean_step-up :
    (last : String) (rest : List String) (s : String)
    → is_skipped s ≡ false
    → (s == "..") ≡ true
    → (last == "..") ≡ false
    → clean_step (last ∷ rest) s ≡ rest
unfolding clean_step
clean_step-up last rest s e u l = rw (e, u, l) refl

clean_step-root :
    (s : String) → is_skipped s ≡ false → (s == "..") ≡ true → clean_step [] s ≡ ".." ∷ []
unfolding clean_step
clean_step-root s e u = rw (e, u) refl

-- An element that leads above the root stays, whatever follows.
clean_step-stays :
    (out : List String) (s : String)
    → contains out ".." ≡ true
    → contains (clean_step out s) ".." ≡ true
unfolding clean_step contains
clean_step-stays [] s h = absurd (ground (arith, h))
clean_step-stays (last ∷ rest) s h =
    ground (arith, h, eq_iff ".." last, eq_iff last "..", eq_iff s "..", eq_iff ".." s)

clean_segs-stays :
    (out ss : List String) → contains out ".." ≡ true → contains (clean_segs out ss) ".." ≡ true
unfolding clean_segs
clean_segs-stays out [] h = h
clean_segs-stays out (s ∷ ss) h = clean_segs-stays (clean_step out s) ss (clean_step-stays out s h)

abbrev Arrives : List String → List String → Type 0
Arrives ss out = descend out ss ≡ some (clean_segs out ss)

descend-up :
    (s : String) (ss out : List String)
    → is_skipped s ≡ false
    → (s == "..") ≡ true
    → contains out ".." ≡ false
    → contains (clean_segs (clean_step out s) ss) ".." ≡ false
    → ((o : List String)
        → contains o ".." ≡ false
        → contains (clean_segs o ss) ".." ≡ false
        → Arrives ss o)
    → descend out (s ∷ ss) ≡ some (clean_segs (clean_step out s) ss)
unfolding descend contains
descend-up s ss [] e u n h ih =
    absurd (ground (arith, rw (clean_step-root s e u) at h, clean_segs-stays (".." ∷ []) ss refl))
descend-up s ss (last ∷ rest) e u n h ih =
    let l : (last == "..") ≡ false = ground (arith, n, eq_iff ".." last, eq_iff last "..") in
    let same = clean_step-up last rest s e u l in
    rw same (rw (e, descend) (rw u (ih rest (ground (arith, n)) (rw same at h))))

-- Where nothing is left that leads up, the walk arrives at what is left.
descend-clean :
    (out ss : List String)
    → contains out ".." ≡ false
    → contains (clean_segs out ss) ".." ≡ false
    → Arrives ss out
unfolding descend clean_segs contains
descend-clean out [] n h = refl
descend-clean out (s ∷ ss) n h = elim (Bool-cases (is_skipped s)) [
  | inl e ↦
      let same = clean_step-skipped out s e in
      rw same (rw (e, descend) (descend-clean out ss n (rw same at h)))
  | inr e ↦ elim (Bool-cases (s == "..")) [
    | inl u ↦ descend-up s ss out e u n h (λ o. descend-clean o ss)
    | inr u ↦
        let same = clean_step-entered out s e u in
        rw same (
          rw (e, descend)
            (rw u (
              descend-clean (s ∷ out) ss (ground (arith, n, u, eq_iff ".." s, eq_iff s ".."))
                (rw same at h))))
  ]
]

contains-reverse :
    (a : String) (xs acc : List String)
    → contains (reverse_onto xs acc) a ≡ (contains xs a || contains acc a)
unfolding reverse_onto contains
contains-reverse a [] acc = refl
contains-reverse a (x ∷ xs) acc = ground (arith, contains-reverse a xs (x ∷ acc))

all_free-reverse :
    (xs acc : List String) → all_free (reverse_onto xs acc) ≡ (all_free xs && all_free acc)
unfolding reverse_onto all_free
all_free-reverse [] acc = refl
all_free-reverse (x ∷ xs) acc = ground (arith, all_free-reverse xs (x ∷ acc))

clean_step-all_free :
    (out : List String) (s : String)
    → all_free out ≡ true
    → slash_free s ≡ true
    → all_free (clean_step out s) ≡ true
unfolding clean_step all_free slash_free
clean_step-all_free [] s n f = ground (arith, f)
clean_step-all_free (last ∷ rest) s n f = ground (arith, n, f)

all_free-clean_segs :
    (out ss : List String)
    → all_free out ≡ true
    → all_free ss ≡ true
    → all_free (clean_segs out ss) ≡ true
unfolding clean_segs all_free
all_free-clean_segs out [] n h = n
all_free-clean_segs out (s ∷ ss) n h =
    all_free-clean_segs (clean_step out s) ss (clean_step-all_free out s n (ground (arith, h)))
      (ground (arith, h))

-- The elements of a path that is accepted, from the last one.
abbrev kept : String → List String
kept rel = clean_segs [] (split rel "/")

clean-all_free : (rel : String) → all_free (clean rel) ≡ true
unfolding clean all_free
clean-all_free rel =
    all_free-reverse (kept rel) []
    ∙ ground (arith, all_free-clean_segs [] (split rel "/") refl (split-all_free rel))

-- No element leads up where the text that is checked has none.
no_up :
    (segs : List String)
    → all_free segs ≡ true
    → contains (split (path_text segs) "/") ".." ≡ false
    → contains segs ".." ≡ false
unfolding path_text contains
no_up [] f h = refl
no_up (x ∷ xs) f h = sym (ap (λ r. contains r "..") (split-join x xs f)) ∙ h

abbrev pub first_of : List String → String
first_of [] = ""
first_of (x ∷ _) = x

prefix_self : (p y : String) → has_prefix (p <> y) p ≡ true
unfolding has_prefix
prefix_self empty y = has_prefix-empty (empty <> y)
  where
    has_prefix-empty : (s : String) → has_prefix s empty ≡ true
    has_prefix-empty empty = refl
    has_prefix-empty (c ⋄ s) = refl
prefix_self (c ⋄ p) y =
    ap (λ r. has_prefix r (c ⋄ p)) (append.cons c p y) ∙ ground (arith, prefix_self p y)

-- A path whose first element is `.git` is one that is refused.
git_text :
    (segs : List String)
    → first_of segs ≡ ".git"
    → (path_text segs == ".git" || has_prefix (path_text segs) ".git/") ≡ true
unfolding path_text join
git_text [] e = absurd (ground (arith, eq_iff "" ".git", e))
git_text (x ∷ []) e = ground (arith, eq_iff x ".git", e)
git_text (x ∷ y ∷ ys) e =
    let same : x <> "/" <> join "/" (y ∷ ys) ≡ ".git/" <> join "/" (y ∷ ys) =
      ap (λ r. r <> "/" <> join "/" (y ∷ ys)) e
      ∙ sym (append_assoc ".git" "/" (join "/" (y ∷ ys))) in
    ground (arith, ap (λ r. has_prefix r ".git/") same ∙ prefix_self ".git/" (join "/" (y ∷ ys)))

-- What the checks that an accepted path has passed say of its clean form.
accepted :
    (path : String)
    → path_rejection path ≡ none
    → let text = path_text (clean (trim_space path)) in
      ((text == ".") ≡ false)
      × (contains (split text "/") ".." ≡ false)
      × ((text == ".git" || has_prefix text ".git/") ≡ false)
unfolding path_rejection
accepted path h = (ground (arith, h), ground (arith, h), ground (arith, h))

not_root :
    (xs : List String) → (path_text (reverse_onto xs []) == ".") ≡ false → is_empty xs ≡ false
unfolding path_text reverse_onto
not_root [] h = absurd (ground (arith, h))
not_root (x ∷ xs) h = refl

-- The elements of an accepted path, walked from the root of the workspace, never lead above it, and
-- end at a place below it that is not within `.git`.
pub path_rejection-descend :
    (path : String)
    → path_rejection path ≡ none
    → (at : List String) × (descend [] (split (trim_space path) "/") ≡ some at)
      × (is_empty at ≡ false)
      × ((first_of (reverse_onto at []) == ".git") ≡ false)
unfolding clean contains
path_rejection-descend path h =
    let rel = trim_space path in
    let (below, inside, source) = accepted path h in
    let up = no_up (clean rel) (clean-all_free rel) inside in
    (
      kept rel,
      descend-clean [] (split rel "/") refl
          (ground (arith, contains-reverse ".." (kept rel) [], up)),
      not_root (kept rel) below,
      elim (Bool-cases (first_of (clean rel) == ".git")) [
        | inr e ↦ e
        | inl e ↦ absurd (
            ground
              (arith, source, git_text (clean rel) ((eq_iff (first_of (clean rel)) ".git").0 e)))
      ],
    )
