-- ===== src/Orgs/Tests.antt =====
-- An organisation on which the theorems about its guard are applied.
use benzo_main.Prelude.{◌≡◌, refl, String, Bool, true, some, List, [], ◌∷◌, arith}
use benzo_main.Orgs.{
  viewer, operator, admin, OrgMember, granted, role_rank, load_membership, with_role,
  require_org_role,
}
use benzo_main.Orgs.Guard.{MayPass, guard-MayPass, guard_monotone}

abbrev any_id : String → Bool
any_id id = true

abbrev staff : List OrgMember
staff =
    record { org_id = "o1"; user_id = "u1"; role = admin }
    ∷ record { org_id = "o1"; user_id = "u2"; role = viewer }
    ∷ []

guard-MayPass_example : MayPass any_id staff operator (some "u1") "o1" admin
unfolding require_org_role load_membership with_role role_rank
guard-MayPass_example = guard-MayPass any_id staff operator (some "u1") "o1" admin refl

guard_monotone_example : require_org_role any_id staff viewer (some "u1") "o1" ≡ granted admin
unfolding require_org_role load_membership with_role role_rank
guard_monotone_example =
    guard_monotone any_id staff operator viewer (some "u1") "o1" admin (omega arith) refl
