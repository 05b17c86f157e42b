-- ===== src/Tests/Plans.antt =====
-- The percentage of a plan that is done.
use opm_api.Prelude.{◌≡◌, refl}
use opm_api.Plan.{pct}

three_of_three : pct 3 3 ≡ 100
unfolding pct
three_of_three = refl

two_of_three : pct 2 3 ≡ 66
unfolding pct
two_of_three = refl
