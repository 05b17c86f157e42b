-- ===== src/Failover/Redacting.antt =====
-- The key of a candidate does not stay in its error.
use Prim.Native.Nat.{suc}
use Prim.Native.Char.{Char, code}
use Prim.Native.String.append
use Prim.Native.String.{String, [], ◌∷◌}
use opm_api.Prelude.{
  ℕ, zero, Bool, true, false, not, ◌&&◌, ◌<>◌, ◌≡◌, refl, ap, ◌∙◌, ◌≢◌, nat_eq, truncate,
  if◌then◌else◌, chars, has_prefix, contains_text, replace_from, replace_all, ◌-◌, arith,
  Bool-cases, eq-false_of_ne, inl, inr,
}
use opm_api.Failover.{Candidate, candidate_name, quota_like, redact, failed_attempt}

-- No character of the text is the star that hides a key.
unfoldable pub no_star : String → Bool
no_star [] = true
no_star (c ∷ s) = not (nat_eq (code c) b'*') && no_star s

-- Stars begin with no text that has none.
star-prefix :
    (x : String) (d : Char) (q : String)
    → no_star (d ∷ q) ≡ true
    → has_prefix ("*" ∷ x) (d ∷ q) ≡ false
unfolding has_prefix no_star
star-prefix x d q n = ground (arith, n)

star-contains :
    (x : String) (d : Char) (q : String)
    → no_star (d ∷ q) ≡ true
    → contains_text ("*" ∷ x) (d ∷ q) ≡ contains_text x (d ∷ q)
unfolding contains_text
star-contains x d q n = ground (arith, star-prefix x d q n)

stars_lem : (x : String) → "***" <> x ≡ "*" ∷ "*" ∷ "*" ∷ x
stars_lem x =
    append.cons "*" "**" x
    ∙ ap (λ r. "*" ∷ r)
        (append.cons "*" "*" x
          ∙ ap (λ r. "*" ∷ r) (append.cons "*" "" x ∙ ap (λ r. "*" ∷ r) (append.nil x)))

stars-contains :
    (x : String) (d : Char) (q : String)
    → no_star (d ∷ q) ≡ true
    → contains_text ("***" <> x) (d ∷ q) ≡ contains_text x (d ∷ q)
stars-contains x d q n =
    ap (λ r. contains_text r (d ∷ q)) (stars_lem x)
    ∙ star-contains ("*" ∷ "*" ∷ x) d q n
    ∙ star-contains ("*" ∷ x) d q n
    ∙ star-contains x d q n

stars-prefix :
    (x : String) (d : Char) (q : String)
    → no_star (d ∷ q) ≡ true
    → has_prefix ("***" <> x) (d ∷ q) ≡ false
stars-prefix x d q n =
    ap (λ r. has_prefix r (d ∷ q)) (stars_lem x) ∙ star-prefix ("*" ∷ "*" ∷ x) d q n

-- What the hidden text begins with, the text began with.
hidden-prefix :
    (key s q : String)
    → no_star q ≡ true
    → has_prefix (replace_from zero s key "***") q ≡ true
    → has_prefix s q ≡ true
unfolding replace_from has_prefix no_star
hidden-prefix key s [] n h = refl
hidden-prefix key [] (d ∷ q) n h = h
hidden-prefix key (c ∷ s) (d ∷ q) n h = elim (Bool-cases (has_prefix (c ∷ s) key)) [
  | inl e ↦ absurd (
      let after = replace_from (chars key - 1) s key "***" in
      ground (arith, stars-prefix after d q n, h, e))
  | inr e ↦ ground (arith, hidden-prefix key s q, h, n, e)
]

module _ (d : Char) (q : String) (n : no_star (d ∷ q) ≡ true) where
  hidden-contains :
      (skip : ℕ) (s : String) → contains_text (replace_from skip s (d ∷ q) "***") (d ∷ q) ≡ false
  unfolding replace_from contains_text chars
  hidden-contains skip [] = eq-false_of_ne (d ∷ q) "" (λ h. omega (arith, ap chars h))
  hidden-contains (suc k) (c ∷ s) = hidden-contains k s
  hidden-contains zero (c ∷ s) = elim (Bool-cases (has_prefix (c ∷ s) (d ∷ q))) [
    | inl e ↦
        let skip = chars (d ∷ q) - 1 in
        rw (e, replace_from)
          (stars-contains (replace_from skip s (d ∷ q) "***") d q n ∙ hidden-contains skip s)
    | inr e ↦ ground (arith, hidden-contains zero s, hidden-prefix (d ∷ q) (c ∷ s) (d ∷ q) n, e)
  ]

redact-hides :
    (c : Candidate) (e : String)
    → c.api_key ≢ ""
    → no_star c.api_key ≡ true
    → contains_text (redact c e) c.api_key ≡ false
unfolding redact replace_all
redact-hides c e filled n = go c.api_key filled n
  where
    go :
        (key : String)
        → key ≢ ""
        → no_star key ≡ true
        → contains_text (replace_all e key "***") key ≡ false
    go [] filled n = absurd (filled refl)
    go (d ∷ q) filled n = rw (eq-false_of_ne (d ∷ q) "" filled) (hidden-contains d q n zero e)

-- What is reported of a failed attempt is the candidate's name and kind, the verdict, and, cut after
-- 200 bytes, a text in which the key of the candidate does not occur, where the key is not empty and
-- has no star.
pub failed_attempt-hides :
    (c : Candidate) (e : String)
    → c.api_key ≢ ""
    → no_star c.api_key ≡ true
    → (shown : String) × (contains_text shown c.api_key ≡ false)
      × (failed_attempt c e
          ≡ candidate_name c
            <> " ("
            <> c.kind
            <> "): "
            <> (if quota_like e then "over quota / throttled" else "failed")
            <> " — "
            <> truncate shown 200)
unfolding failed_attempt
failed_attempt-hides c e filled n = (redact c e, redact-hides c e filled n, refl)
