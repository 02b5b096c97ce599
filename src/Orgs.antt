-- ===== src/Orgs.antt =====
-- The guard of an organisation's routes, backend/services/api/src/orgs/access.ts. Who the caller is
-- (`requireAuth`) and what a UUID is (zod) are arguments.
pub mod Guard
mod Tests
use benzo_main.Prelude.{
  ℕ, ◌≡◌, String, Bool, true, false, Option, none, some, List, [], ◌∷◌, ◌&&◌, ltb, find, str_eq,
  if◌then◌else◌,
}

pub data OrgRole : Type 0 where
  viewer operator admin owner : OrgRole

-- A row of `org_members`.
pub record OrgMember : Type 0 where
  pub org_id : String
  pub user_id : String
  pub role : OrgRole

-- What the guard leaves: the reply that authentication sent, its own reply, or the caller's role.
pub data GuardResult : Type 0 where
  unauthenticated : GuardResult
  replied : ℕ → String → GuardResult
  granted : OrgRole → GuardResult

unfoldable pub role_rank : OrgRole → ℕ
role_rank viewer = 0
role_rank operator = 1
role_rank admin = 2
role_rank owner = 3

abbrev is_member : String → String → OrgMember → Bool
is_member org user m = str_eq m.org_id org && str_eq m.user_id user

abbrev role_of : Option OrgMember → Option OrgRole
role_of none = none
role_of (some m) = some m.role

unfoldable pub load_membership : List OrgMember → String → String → Option OrgRole
load_membership members org user = role_of (find (is_member org user) members)

unfoldable pub with_role : OrgRole → Option OrgRole → GuardResult
with_role min_role none = replied 404 "org_not_found"
with_role min_role (some role) =
    if ltb (role_rank role) (role_rank min_role) then replied 403 "forbidden" else granted role

module _ (is_uuid : String → Bool) (members : List OrgMember) where
  unfoldable pub require_org_role : OrgRole → Option String → String → GuardResult
  require_org_role min_role none org = unauthenticated
  require_org_role min_role (some user) org =
      if is_uuid org
      then with_role min_role (load_membership members org user)
      else replied 400 "invalid_org_id"
