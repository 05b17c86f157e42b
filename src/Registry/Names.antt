-- ===== src/Registry/Names.antt =====
-- `normalizeOwnerRepo` of store.go, and the name that a repository gives a project.
use opm_api.Prelude.{
  String, Bool, ◌||◌, List, [], ◌∷◌, ◌<>◌, ◌==◌, nat_eq, split, trim, trim_prefix, trim_suffix,
  trim_space, if◌then◌else◌,
}
use Prim.Native.Char.{Char, code}

abbrev is_slash : Char → Bool
is_slash c = nat_eq (code c) b'/'

-- The two parts of a repository's full name, or the empty text.
unfoldable pub two_parts : List String → String
two_parts [] = ""
two_parts (owner ∷ []) = ""
two_parts (owner ∷ repo ∷ []) = if owner == "" || repo == "" then "" else owner <> "/" <> repo
two_parts (owner ∷ repo ∷ _ ∷ _) = ""

unfoldable pub normalize_owner_repo : String → String
unfolding two_parts
normalize_owner_repo s =
    let bare =
      trim_suffix
        (trim_prefix (trim_prefix (trim_space s) "https://github.com/") "http://github.com/")
        ".git" in
    two_parts (split (trim is_slash bare) "/")

-- The last of the parts of `strings.SplitN(s, "/", 2)`.
abbrev second_or_all : String → List String → String
second_or_all s [] = s
second_or_all s (_ ∷ []) = s
second_or_all s (_ ∷ repo ∷ rest) = rejoin repo rest
  where
    rejoin : String → List String → String
    rejoin x [] = x
    rejoin x (y ∷ ys) = x <> "/" <> rejoin y ys

unfoldable pub repo_name : String → String
repo_name owner_repo = second_or_all owner_repo (split owner_repo "/")
