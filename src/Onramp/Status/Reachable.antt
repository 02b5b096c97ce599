-- ===== src/Onramp/Status/Reachable.antt =====
-- Which statuses an intent can come to, by any number of transitions.
use benzo_main.Prelude.{◌≡◌, true, false, arith, refl}
use benzo_main.Service.{ok, err}
use benzo_main.Database.{OnrampStatus}
use benzo_main.Onramp.Status.{
  can_transition, is_terminal_status, assert_transition, illegal_transition,
}

pub data Reaches (a : OnrampStatus) : OnrampStatus → Type 0 where
  here : Reaches a a
  next : {b c : OnrampStatus} → Reaches a b → can_transition b c ≡ true → Reaches a c

pub Reaches-trans : {a b c : OnrampStatus} → Reaches a b → Reaches b c → Reaches a c
Reaches-trans r here = r
Reaches-trans r (next s t) = next (Reaches-trans r s) t

pub step-Reaches : {a b : OnrampStatus} → can_transition a b ≡ true → Reaches a b
step-Reaches t = next here t

stuck : (a b : OnrampStatus) → is_terminal_status a ≡ true → can_transition a b ≡ false
unfolding is_terminal_status can_transition
stuck a b h = ground arith

-- No transition leaves a terminal status.
pub Reaches-terminal : {a b : OnrampStatus} → is_terminal_status a ≡ true → Reaches a b → a ≡ b
Reaches-terminal h here = refl
Reaches-terminal {a} h (next {b} {c} r t) = ground (arith, Reaches-terminal h r, stuck b c)

pub assert_transition-ok :
    (a b : OnrampStatus) → assert_transition a b ≡ ok tt → can_transition a b ≡ true
unfolding assert_transition
assert_transition-ok a b h = ground arith

pub assert_transition_refuses :
    (a b : OnrampStatus)
    → can_transition a b ≡ false
    → assert_transition a b ≡ err (illegal_transition a b)
unfolding assert_transition
assert_transition_refuses a b h = rw h
