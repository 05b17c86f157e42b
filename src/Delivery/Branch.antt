-- ===== src/Delivery/Branch.antt =====
-- The name of a delivery's branch: `sanitizeBranchSegment` and `deliveryBranchName` of
-- delivery_git.go.
pub mod Laws
use Prim.Native.Char.{Char, code}
use opm_api.Prelude.{
  ℕ, String, Bool, true, false, ◌||◌, ◌<>◌, ◌==◌, ltb, nat_eq, trim, trim_space, to_lower, chars,
  take_chars, if◌then◌else◌,
}
use opm_api.Store.SpecIds.{is_slug_char}

-- The loop over the runes, where the flag is `prevDash`. All that is no letter and no digit takes the
-- same branch, whether or not it is one of `.`, `_`, `-` and `/`.
unfoldable pub dashed : Bool → String → String
unfolding is_slug_char
dashed prev_dash String.[] = String.[]
dashed prev_dash (String.◌∷◌ c s) =
    let kept = String.◌∷◌ c (dashed false s) in
    let dash = String.◌∷◌ "-" (dashed true s) in
    let dropped = dashed true s in
    if is_slug_char c then kept else if prev_dash then dropped else dash

-- The cutset `"-."`.
unfoldable pub is_edge : Char → Bool
is_edge c = nat_eq (code c) b'-' || nat_eq (code c) b'.'

-- The bytes of the text are its characters, since all of them are ASCII.
unfoldable pub sanitize_branch_segment : String → String
unfolding dashed is_edge trim to_lower trim_space chars take_chars
sanitize_branch_segment s =
    let out = trim is_edge (dashed false (to_lower (trim_space s))) in
    if ltb 60 (chars out) then trim is_edge (take_chars 60 out) else out

-- `prefix` is what `deliveryBranchPrefix` reads from the environment.
unfoldable pub delivery_branch_name : String → String → String → String
unfolding sanitize_branch_segment
delivery_branch_name prefix spec_id requested =
    let wanted = sanitize_branch_segment requested in
    let own = sanitize_branch_segment spec_id in
    let seg = if own == "" then "task" else own in
    if wanted == "" then (if prefix == "" then seg else prefix <> "/" <> seg) else wanted
