-- ===== src/Orgs/Guard.antt =====
-- Whom the guard of an organisation's routes lets through.
use benzo_main.Prelude.{
  ℕ, ◌≤◌, ◌≡◌, refl, String, Bool, true, false, Option, none, some, List, arith, ltb, inl, inr,
  Bool-cases,
}
use benzo_main.Orgs.{
  OrgRole, OrgMember, granted, role_rank, load_membership, with_role, require_org_role,
}

-- What it takes to be let through with a role.
pub record MayPass (is_uuid : String → Bool) (members : List OrgMember) (min_role : OrgRole)
    (caller : Option String) (org : String) (role : OrgRole) : Type 0 where
  pub user : String
  pub authenticated : caller ≡ some user
  pub valid_id : is_uuid org ≡ true
  pub member : load_membership members org user ≡ some role
  pub high_enough : role_rank min_role ≤ role_rank role

with_role-granted :
    (min_role role : OrgRole) (found : Option OrgRole)
    → with_role min_role found ≡ granted role
    → (found ≡ some role) × (role_rank min_role ≤ role_rank role)
unfolding with_role
with_role-granted min_role role none h = absurd (cc h)
with_role-granted min_role role (some r) h =
    elim (Bool-cases (ltb (role_rank r) (role_rank min_role))) [
      | inl low ↦ absurd (cc (rw low at h))
      | inr high ↦
          (let same : r ≡ role = cc (rw high at h) in rw (← same) (refl, ground (arith, high)))
    ]

-- The guard lets a request through with a role only if the caller is authenticated, the id is a
-- UUID, and the caller is a member of the organisation with that role, which ranks no lower than
-- the one required.
pub guard-MayPass :
    (is_uuid : String → Bool) (members : List OrgMember) (min_role : OrgRole)
    (caller : Option String) (org : String) (role : OrgRole)
    → require_org_role is_uuid members min_role caller org ≡ granted role
    → MayPass is_uuid members min_role caller org role
unfolding require_org_role
guard-MayPass is_uuid members min_role none org role h = absurd (cc h)
guard-MayPass is_uuid members min_role (some user) org role h = elim (Bool-cases (is_uuid org)) [
  | inr bad ↦ absurd (cc (rw bad at h))
  | inl good ↦
      (let (member, rank) =
          with_role-granted min_role role (load_membership members org user) (rw good at h) in
        record {
          user = user;
          authenticated = refl;
          valid_id = good;
          member = member;
          high_enough = rank;
        })
]

not_ltb : (m n : ℕ) → m ≤ n → ltb n m ≡ false
not_ltb m n h = ground arith

-- Who passes where a role is required passes, with the same role, wherever a role that ranks no
-- higher is required.
pub guard_monotone :
    (is_uuid : String → Bool) (members : List OrgMember) (min_role lower : OrgRole)
    (caller : Option String) (org : String) (role : OrgRole)
    → role_rank lower ≤ role_rank min_role
    → require_org_role is_uuid members min_role caller org ≡ granted role
    → require_org_role is_uuid members lower caller org ≡ granted role
unfolding require_org_role with_role
guard_monotone is_uuid members min_role lower caller org role below h =
    let pass = guard-MayPass is_uuid members min_role caller org role h in
    rw
      (
        pass.authenticated,
        pass.valid_id,
        pass.member,
        not_ltb (role_rank lower) (role_rank role) (omega (arith, below, pass.high_enough)),
      )
      refl
