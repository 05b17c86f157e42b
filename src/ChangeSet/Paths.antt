-- ===== src/ChangeSet/Paths.antt =====
-- `pathRejection` of delivery_changes.go, with what it uses of `path/filepath` on slashes.
pub mod Laws
use opm_api.Prelude.{
  String, Bool, true, false, not, ◌||◌, Option, none, some, List, [], ◌∷◌, ◌<>◌, ◌==◌, contains,
  contains_text, has_prefix, join, split, trim_space, if◌then◌else◌,
}

-- The elements that are kept, the last one first, after one more element of a relative path.
unfoldable pub clean_step : List String → String → List String
clean_step out seg =
    if seg == "" || seg == "."
    then out
    else if seg == ".."
    then elim out [
      | [] ↦ ".." ∷ []
      | last ∷ rest ↦ if last == ".." then ".." ∷ last ∷ rest else rest
    ]
    else seg ∷ out

unfoldable pub clean_segs : List String → List String → List String
unfolding clean_step
clean_segs out [] = out
clean_segs out (s ∷ ss) = clean_segs (clean_step out s) ss

unfoldable pub reverse_onto : List String → List String → List String
reverse_onto [] acc = acc
reverse_onto (s ∷ ss) acc = reverse_onto ss (s ∷ acc)

-- `filepath.Clean` of a relative path, as its elements; the empty list is ".".
unfoldable pub clean : String → List String
unfolding clean_segs reverse_onto
clean path = reverse_onto (clean_segs [] (split path "/")) []

-- Whether the path's first elements are these.
unfoldable pub path_text : List String → String
path_text [] = "."
path_text (s ∷ ss) = join "/" (s ∷ ss)

-- Why a path may not be written; `none` where it is safe.
unfoldable pub path_rejection : String → Option String
unfolding clean path_text contains
path_rejection path =
    let rel = trim_space path in
    let segs = clean rel in
    let text = path_text segs in
    if rel == ""
    then some "blank path"
    else if contains_text rel "\0"
    then some "path contains a null byte"
    else if contains_text rel "\\"
    then some "path must use forward slashes"
    else if has_prefix rel "/"
    then some "absolute paths are not allowed"
    else if text == "." || text == ".."
    then some "path resolves to the workspace root"
    else if contains (split text "/") ".."
    then some "path escapes the workspace"
    else if text == ".git" || has_prefix text ".git/"
    then some "writing repository metadata (.git) is not allowed"
    else if has_prefix text ".github/workflows/"
    then some
        "workflow files are out of scope — the delivery credential has no workflows permission"
    else none
