-- ===== src/World/Steps.antt =====
-- Reasoning about actions: a relation between the directory before and after that every outcome
-- keeps, and the inversion of a success.
use opm_api.Prelude.{Result, ok, err, ◌≡◌, refl, ap}
use opm_api.World.{World, Op, continue, ◌>>=◌}

-- Whether it fails or not, `m` relates the directory before to the one after.
pub record Always {A : Type 0} (R : World → World → Type 0) (m : Op A) : Type 0 where
  pub at : (w : World) → R w (m w).1

-- What the rules below want of a relation.
pub record IsPreorder (R : World → World → Type 0) : Type 0 where
  pub rel_refl : (w : World) → R w w
  pub rel_trans : (u v w : World) → R u v → R v w → R u w

module _ {R : World → World → Type 0} (pre : IsPreorder R) where
  pub Always-bind :
      {A B : Type 0} (m : Op A) (k : A → Op B)
      → Always R m
      → ((a : A) → Always R (k a))
      → Always R (m >>= k)
  unfolding ◌>>=◌
  Always-bind m k h g = record { at = λ w. go w (m w).0 (m w).1 (h.at w) }
    where
      go : (w : World) (r : Result _) (w' : World) → R w w' → R w (continue r k w').1
      go w (ok a) w' l = pre.rel_trans w w' _ l ((g a).at w')
      go w (err e) w' l = l

-- A success of a chain is a success of its first action, and then of the rest from there.
pub bind-eq-ok :
    {A B : Type 0} (m : Op A) (k : A → Op B) (w : World) {b : B}
    → ((m >>= k) w).0 ≡ ok b
    → (a : A) × ((m w).0 ≡ ok a) × ((m >>= k) w ≡ k a (m w).1) × ((k a (m w).1).0 ≡ ok b)
unfolding ◌>>=◌
bind-eq-ok {A} {B} m k w {b} h = go (m w).0 (m w).1 refl h
  where
    go :
        (r : Result A) (w' : World)
        → (m w).0 ≡ r
        → (continue r k w').0 ≡ ok b
        → (a : A) × (r ≡ ok a) × (continue r k w' ≡ k a w') × ((k a w').0 ≡ ok b)
    go (ok a) w' e q = (a, refl, refl, q)
    go (err x) w' e q = cc

-- A chain goes on from what its first action answers.
pub bind-run :
    {A B : Type 0} (m : Op A) (k : A → Op B) {w w' : World} {a : A}
    → m w ≡ (ok a, w')
    → (m >>= k) w ≡ k a w'
unfolding ◌>>=◌
bind-run m k h = ap (λ o. continue o.0 k o.1) h
