-- ===== src/Onboarding/Start/Bounds.antt =====
-- How many onboardings `listAdminOnboardings` of backend/services/api/src/onboarding/service.ts
-- gives.
use benzo_main.Prelude.{
  ℕ, ◌≤◌, ◌≡◌, refl, Option, none, some, List, length, take, length-take, arith,
}
use benzo_main.Service.{ok, World, atomic}
use benzo_main.Onboarding.{OnboardingStatus, OnboardingState}
use benzo_main.Onboarding.Records.{OnboardingRecord}
use benzo_main.Onboarding.Start.{
  ℤ, pos, negsuc, max_admin_onboarding_limit, normalize_admin_onboarding_limit,
  list_admin_onboardings,
}

limit-bounds :
    (limit : Option ℤ)
    → (1 ≤ normalize_admin_onboarding_limit limit)
      × (normalize_admin_onboarding_limit limit ≤ max_admin_onboarding_limit)
unfolding normalize_admin_onboarding_limit
limit-bounds none = (omega arith, omega arith)
limit-bounds (some (pos n)) = (omega arith, omega arith)
limit-bounds (some (negsuc n)) = (omega arith, omega arith)

take-bound : {A : Type 0} (n m : ℕ) (xs : List A) → n ≤ m → length (take n xs) ≤ m
take-bound n m xs le = omega (arith, length-take n xs, le)

-- Whatever limit and offset are asked for, `listAdminOnboardings` returns, with 500 onboardings at
-- most.
pub list_admin_onboardings-bound :
    (limit offset : Option ℤ) (status : Option OnboardingStatus) (w : World OnboardingState)
    → (rows : List OnboardingRecord) × ((list_admin_onboardings limit offset status w).0 ≡ ok rows)
      × (length rows ≤ max_admin_onboarding_limit)
unfolding list_admin_onboardings atomic
list_admin_onboardings-bound limit offset status w =
    let bounds = limit-bounds limit in (_, refl, take-bound _ max_admin_onboarding_limit _ bounds.1)
