-- ===== src/Onboarding/Advance/Stands.antt =====
-- Where an onboarding stands in the database of backend/services/api/src/onboarding/service.ts, and
-- that its updates and the reads after them keep it there.
use benzo_main.Prelude.{ℕ, ◌≡◌, ap, String, Text, some, List, find, find_holds, eq_iff}
use benzo_main.Service.{ok, alone, atomic, ◌>>=◌}
use benzo_main.Table.{update_where}
use benzo_main.Table.Rows.{find-update_where}
use benzo_main.Database.{User}
use benzo_main.Onboarding.{OnboardingStatus, Onboarding, OnboardingState}
use benzo_main.Onboarding.Records.{
  OnboardingRecord, is_of, is_user, is_kyc_of, joined_record, touched, select_onboarding_record,
  require_onboarding_record,
}
use benzo_main.Onboarding.Advance.{read_again}

-- The user's onboarding has this status, and the user this address.
pub record Stands (user_id : String) (address : Text) (status : OnboardingStatus)
    (os : List Onboarding) (us : List User) : Type 0 where
  pub onboarding : Onboarding
  pub found : find (is_of user_id) os ≡ some onboarding
  pub at : onboarding.status ≡ status
  pub user : User
  pub known : find (is_user user_id) us ≡ some user
  pub lives : user.address ≡ address

-- A row that was read so.
pub record IsRow (user_id : String) (address : Text) (status : OnboardingStatus)
    (row : OnboardingRecord) : Type 0 where
  pub of : row.onboarding.user_id ≡ user_id
  pub at : row.onboarding.status ≡ status
  pub lives : row.address ≡ address

find-is_of :
    (id : String) (os : List Onboarding) (o : Onboarding)
    → find (is_of id) os ≡ some o
    → o.user_id ≡ id
find-is_of id os o h = (eq_iff o.user_id id).0 (find_holds (is_of id) os o h)

module _ (now : ℕ) (id : String) (f : Onboarding → Onboarding)
    (keeps : (o : Onboarding) → (f o).user_id ≡ o.user_id) where
  touched-keeps : (o : Onboarding) → is_of id (touched now f o) ≡ is_of id o
  touched-keeps o = rw (keeps o)

  -- Where the update leads from this status.
  pub Stands-update_from :
      {address : Text} {status next : OnboardingStatus} {os : List Onboarding} {us : List User}
      → ((o : Onboarding) → o.status ≡ status → (f o).status ≡ next)
      → Stands id address status os us
      → Stands id address next (update_where (is_of id) (touched now f) os) us
  Stands-update_from {os = os} moves s =
      let selected = find_holds (is_of id) os s.onboarding s.found in
      let h =
        find-update_where (is_of id) (is_of id) (touched now f) os s.onboarding touched-keeps
          s.found in
      record {
        onboarding = touched now f s.onboarding;
        found = rw selected at h;
        at = moves s.onboarding s.at;
        user = s.user;
        known = s.known;
        lives = s.lives;
      }

  pub Stands-update :
      {address : Text} {status next : OnboardingStatus} {os : List Onboarding} {us : List User}
      → ((o : Onboarding) → (f o).status ≡ next)
      → Stands id address status os us
      → Stands id address next (update_where (is_of id) (touched now f) os) us
  Stands-update moves s = Stands-update_from (λ o h. moves o) s

-- What reading the onboarding gives.
pub record Reads (id : String) (address : Text) (status : OnboardingStatus) (db : OnboardingState)
    : Type 0 where
  pub row : OnboardingRecord
  pub is_row : IsRow id address status row
  pub read_as : joined_record (find (is_of id) db.onboardings) db ≡ some row

pub Stands-Reads :
    {id : String} {address : Text} {status : OnboardingStatus} (db : OnboardingState)
    → Stands id address status db.onboardings db.users
    → Reads id address status db
Stands-Reads {id} db s =
    let own = find-is_of id db.onboardings s.onboarding s.found in
    record {
      row = record {
        onboarding = s.onboarding;
        address = s.user.address;
        kyc = find (is_kyc_of s.onboarding.user_id) db.kyc_records;
      };
      is_row = record { of = own; at = s.at; lives = s.lives };
      read_as = rw (s.found, own, s.known);
    }

module _ {id : String} {address : Text} {status : OnboardingStatus} (db : OnboardingState)
    (r : Reads id address status db) where
  pub select_onboarding_record-Reads :
      select_onboarding_record id (alone db) ≡ (ok (some r.row), alone db)
  unfolding select_onboarding_record atomic
  select_onboarding_record-Reads = ap (λ row. (ok row, alone db)) r.read_as

  pub read_again-Reads : read_again id (alone db) ≡ (ok (some r.row), alone db)
  unfolding read_again require_onboarding_record ◌>>=◌
  read_again-Reads = rw select_onboarding_record-Reads
