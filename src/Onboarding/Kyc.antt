-- ===== src/Onboarding/Kyc.antt =====
-- The mock KYC provider, onboarding/kyc.ts. `toUpperCase` is modelled on the letters a to z.
use benzo_main.Prelude.{
  trim, ◌-◌, Text, codes, Option, none, some, [], ◌∷◌, ◌&&◌, map, take, leb, if◌then◌else◌,
}
use benzo_main.Onboarding.{MockKycInput, MockKycPayload}

unfoldable pub to_upper_case : Text → Text
to_upper_case s = map (λ c. if leb b'a' c && leb c b'z' then c - 32 else c) s

abbrev pub country_of : Text → Text
country_of [] = codes "US"
country_of (c ∷ s) = take 2 (c ∷ s)

unfoldable pub normalize_country : Option Text → Text
normalize_country none = codes "US"
normalize_country (some country) = country_of (to_upper_case (trim country))

abbrev pub name_of : Text → Text
name_of [] = codes "Mock Benzo User"
name_of (c ∷ s) = take 120 (c ∷ s)

unfoldable pub normalize_name : Option Text → Text
normalize_name none = codes "Mock Benzo User"
normalize_name (some name) = name_of (trim name)

unfoldable pub normalize_mock_kyc_payload : MockKycInput → MockKycPayload
normalize_mock_kyc_payload input = record {
  country = normalize_country input.country;
  name = normalize_name input.name;
}
