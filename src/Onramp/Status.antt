-- ===== src/Onramp/Status.antt =====
-- The state machine of an onramp intent: `TRANSITIONS`, `TERMINAL`, `isTerminalStatus`,
-- `canTransition` and `assertTransition` of onramp/service.ts.
pub mod Reachable
use Prim.Native.String
use benzo_main.Prelude.{ℕ, String, Bool, true, false, List, [], ◌∷◌, any, ◌==◌, if◌then◌else◌}
use benzo_main.Service.{Exn, Result, ok, err, error}
use benzo_main.Database.{
  OnrampStatus, initiated, burned, attested, minted, needs_onboarding, credited, failed,
}

-- The position in the enumeration, by which `===` compares two statuses.
abbrev pub tag : OnrampStatus → ℕ
tag initiated = 0
tag burned = 1
tag attested = 2
tag minted = 3
tag needs_onboarding = 4
tag credited = 5
tag OnrampStatus.failed = 6

abbrev pub status_eq : OnrampStatus → OnrampStatus → Bool
status_eq a b = tag a == tag b

abbrev status_name : OnrampStatus → String
status_name initiated = "initiated"
status_name burned = "burned"
status_name attested = "attested"
status_name minted = "minted"
status_name needs_onboarding = "needs_onboarding"
status_name credited = "credited"
status_name OnrampStatus.failed = "failed"

-- `statuses.includes(status)`
abbrev pub includes : List OnrampStatus → OnrampStatus → Bool
includes xs s = any (status_eq s) xs

abbrev pub terminal_statuses : List OnrampStatus
terminal_statuses = credited ∷ failed ∷ []

unfoldable pub transitions : OnrampStatus → List OnrampStatus
transitions initiated = burned ∷ needs_onboarding ∷ failed ∷ []
transitions burned = attested ∷ needs_onboarding ∷ failed ∷ []
transitions attested = minted ∷ needs_onboarding ∷ failed ∷ []
transitions minted = needs_onboarding ∷ credited ∷ failed ∷ []
transitions needs_onboarding = attested ∷ minted ∷ credited ∷ failed ∷ []
transitions credited = []
transitions OnrampStatus.failed = []

unfoldable pub is_terminal_status : OnrampStatus → Bool
is_terminal_status s = includes terminal_statuses s

unfoldable pub can_transition : OnrampStatus → OnrampStatus → Bool
unfolding transitions
can_transition from to = includes (transitions from) to

-- `invalid_onramp_transition:${from}:${to}`
unfoldable pub illegal_transition : OnrampStatus → OnrampStatus → Exn
illegal_transition from to = error (
    String.◌++◌ "invalid_onramp_transition:"
      (String.◌++◌ (status_name from) (String.◌++◌ ":" (status_name to))))

unfoldable pub assert_transition : OnrampStatus → OnrampStatus → Result (Unit {0})
assert_transition from to =
    if can_transition from to then ok tt else err (illegal_transition from to)
