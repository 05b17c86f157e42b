-- ===== src/Delivery/Branch/Laws.antt =====
-- What every sanitized branch segment is.
use Prim.Native.Char.{Char, code}
use opm_api.Prelude.{
  ℕ, zero, suc, ◌≤◌, String, Bool, true, false, ◌&&◌, ◌||◌, not, ◌≡◌, refl, arith, ltb, nat_eq,
  trim, trim_left, trim_right, chars, take_chars, keep_left, first_is, last_is, first-trim_left,
  first-trim_right, last-trim_right, chars-trim_left, chars-trim_right, if◌then◌else◌, trim_space,
  to_lower, Bool-cases, inl, inr,
}
use opm_api.Store.SpecIds.{is_slug_char}
use opm_api.Delivery.Branch.{dashed, is_edge, sanitize_branch_segment}

-- `[a-z0-9-]`.
abbrev pub is_segment_char : Char → Bool
is_segment_char c = is_slug_char c || nat_eq (code c) b'-'

-- All characters are such, and no dash follows a dash; the flag says that the one before is a dash.
abbrev pub no_dash_runs : Bool → String → Bool
no_dash_runs after_dash String.[] = true
no_dash_runs after_dash (String.◌∷◌ c s) =
    is_segment_char c
    && not (after_dash && nat_eq (code c) b'-')
    && no_dash_runs (nat_eq (code c) b'-') s

no_dash_runs-dashed : (prev : Bool) (s : String) → no_dash_runs prev (dashed prev s) ≡ true
unfolding dashed is_slug_char
no_dash_runs-dashed prev String.[] = refl
no_dash_runs-dashed prev (String.◌∷◌ c s) =
    ground (arith, no_dash_runs-dashed false s, no_dash_runs-dashed true s)

-- Trimming.

no_dash_runs-trim_left :
    (b : Bool) (s : String)
    → no_dash_runs b s ≡ true
    → no_dash_runs false (trim_left is_edge s) ≡ true
unfolding trim_left
no_dash_runs-trim_left b String.[] h = refl
no_dash_runs-trim_left b (String.◌∷◌ c s) h =
    ground (arith, no_dash_runs-trim_left (nat_eq (code c) b'-') s)

no_dash_runs-keep :
    (b : Bool) (c : Char) (s t : String)
    → no_dash_runs b (String.◌∷◌ c s) ≡ true
    → no_dash_runs (nat_eq (code c) b'-') t ≡ true
    → no_dash_runs b (String.◌∷◌ c t) ≡ true
no_dash_runs-keep b c s t h k = ground arith

no_dash_runs-trim_right :
    (b : Bool) (s : String) → no_dash_runs b s ≡ true → no_dash_runs b (trim_right is_edge s) ≡ true
unfolding trim_right
no_dash_runs-trim_right b String.[] h = refl
no_dash_runs-trim_right b (String.◌∷◌ c s) h =
    go (trim_right is_edge s) (no_dash_runs-trim_right (nat_eq (code c) b'-') s (tail h))
  where
    tail : no_dash_runs b (String.◌∷◌ c s) ≡ true → no_dash_runs (nat_eq (code c) b'-') s ≡ true
    tail h = ground arith

    go :
        (t : String)
        → no_dash_runs (nat_eq (code c) b'-') t ≡ true
        → no_dash_runs b (keep_left is_edge c t) ≡ true
    go String.[] k = elim (Bool-cases (is_edge c)) [
      | inl e ↦ rw e refl
      | inr e ↦ rw e (no_dash_runs-keep b c s String.[] h refl)
    ]
    go (String.◌∷◌ d t) k = no_dash_runs-keep b c s (String.◌∷◌ d t) h k

-- Cutting.

no_dash_runs-take_chars :
    (b : Bool) (n : ℕ) (s : String)
    → no_dash_runs b s ≡ true
    → no_dash_runs b (take_chars n s) ≡ true
unfolding take_chars
no_dash_runs-take_chars b zero s h = refl
no_dash_runs-take_chars b (suc n) String.[] h = refl
no_dash_runs-take_chars b (suc n) (String.◌∷◌ c s) h =
    ground (arith, no_dash_runs-take_chars (nat_eq (code c) b'-') n s)

chars-take_chars : (n : ℕ) (s : String) → chars (take_chars n s) ≤ n
unfolding take_chars chars
chars-take_chars zero s = omega arith
chars-take_chars (suc n) String.[] = omega arith
chars-take_chars (suc n) (String.◌∷◌ c s) = omega (arith, chars-take_chars n s)

abbrev pub is_dash : Char → Bool
is_dash c = nat_eq (code c) b'-'

-- A text that neither starts nor ends with an edge neither starts nor ends with a dash.

first-is_dash : (s : String) → first_is is_edge s ≡ false → first_is is_dash s ≡ false
unfolding is_edge
first-is_dash String.[] h = refl
first-is_dash (String.◌∷◌ c s) h = ground arith

last-is_dash : (s : String) → last_is is_edge s ≡ false → last_is is_dash s ≡ false
unfolding is_edge
last-is_dash String.[] h = refl
last-is_dash (String.◌∷◌ c String.[]) h = ground arith
last-is_dash (String.◌∷◌ c (String.◌∷◌ d s)) h = last-is_dash (String.◌∷◌ d s) h

-- What git takes as one segment of a ref, and never as an option.
pub record IsSegment (t : String) : Type 0 where
  pub plain : no_dash_runs false t ≡ true
  pub starts : first_is is_dash t ≡ false
  pub ends : last_is is_dash t ≡ false
  pub short : chars t ≤ 60

trim-IsSegment :
    (s : String) → no_dash_runs false s ≡ true → chars s ≤ 60 → IsSegment (trim is_edge s)
unfolding trim
trim-IsSegment s h n = record {
  plain = no_dash_runs-trim_right false _ (no_dash_runs-trim_left false s h);
  starts =
      first-is_dash (trim_right is_edge (trim_left is_edge s))
        (first-trim_right is_edge _ (first-trim_left is_edge s));
  ends =
      last-is_dash (trim_right is_edge (trim_left is_edge s))
        (last-trim_right is_edge (trim_left is_edge s));
  short = omega (arith, chars-trim_right is_edge (trim_left is_edge s), chars-trim_left is_edge s);
}

cut-IsSegment :
    (out : String)
    → no_dash_runs false out ≡ true
    → first_is is_edge out ≡ false
    → last_is is_edge out ≡ false
    → IsSegment (if ltb 60 (chars out) then trim is_edge (take_chars 60 out) else out)
cut-IsSegment out h a z = elim (Bool-cases (ltb 60 (chars out))) [
  | inl e ↦ rw e (
      trim-IsSegment (take_chars 60 out) (no_dash_runs-take_chars false 60 out h)
        (chars-take_chars 60 out))
  | inr e ↦ rw e (record {
    plain = h;
    starts = first-is_dash out a;
    ends = last-is_dash out z;
    short = ground arith;
  })
]

-- A sanitized segment, whatever the text, has letters, digits and single dashes only, at most 60 of
-- them, and neither starts nor ends with a dash.
pub sanitize_branch_segment-IsSegment : (s : String) → IsSegment (sanitize_branch_segment s)
unfolding sanitize_branch_segment trim
sanitize_branch_segment-IsSegment s =
    let t = dashed false (to_lower (trim_space s)) in
    let u = trim_left is_edge t in
    cut-IsSegment (trim is_edge t)
      (no_dash_runs-trim_right false u
        (no_dash_runs-trim_left false t (no_dash_runs-dashed false (to_lower (trim_space s)))))
      (first-trim_right is_edge u (first-trim_left is_edge t)) (last-trim_right is_edge u)
