-- ===== src/Onramp/Poller/Steps/Growth.antt =====
-- The steps on an intent move the ledger only as `Grows` allows, whatever others write.
use benzo_main.Prelude.{String, Text, Option, none, some}
use benzo_main.Service.Maintains.{Maintains, maintains_rules}
use benzo_main.Table.Evolution.{Evolves-refl, Evolves-insert_unless}
use benzo_main.Database.{OnrampStatus, Intent, User, Deposit, Ledger}
use benzo_main.Database.Growth.{Grows, Grows-refl, intent_laws, deposit_laws}
use benzo_main.Onramp.Intents.{IntentPatch}
use benzo_main.Onramp.Intents.Growth.{
  atomic-Maintains, patch_intent-Maintains, transition_intent-Maintains,
}
use benzo_main.Onramp.Message.{DecodedMessage}
use benzo_main.Onramp.Relayer.{SettleDepositResult}
use benzo_main.Onramp.Poller.{IrisMessage, PollerEnv, FundingToken}
use benzo_main.Onramp.Poller.Steps.{
  ensure_user_for_address, user_or_new, mark_burned, reassociate_intent, burned_first,
  then_attested, advance_to_attested, move_or_patch, park_needs_onboarding, fail_intent,
  minted_first, then_credited, mark_credited, insert_deposit, mirror, funded,
  finalize_treasury_funding, credit_minted, credit_settled, is_deposit_of,
}

user_or_new-Grows : (r : Option User) (row : User) (s : Ledger) → Grows s (user_or_new r row s).1
user_or_new-Grows none row s = record {
  intents = Evolves-refl intent_laws s.intents;
  deposits = Evolves-refl deposit_laws s.deposits;
}
user_or_new-Grows (some u) row s = Grows-refl s

insert_deposit-Grows : (row : Deposit) (s : Ledger) → Grows s (insert_deposit row s).1
unfolding insert_deposit
insert_deposit-Grows row s = record {
  intents = Evolves-refl intent_laws s.intents;
  deposits = Evolves-insert_unless deposit_laws (is_deposit_of row) row s.deposits tt;
}

module _ (env : PollerEnv) (origin : Ledger) where
  ensure_user_for_address-Maintains :
      (address : Text) → Maintains (Grows origin) (ensure_user_for_address env address)
  unfolding ensure_user_for_address
  ensure_user_for_address-Maintains address = atomic-Maintains origin _ λ s. user_or_new-Grows _ _ s

  pub mark_burned-Maintains :
      (intent : Intent) (m : IrisMessage) → Maintains (Grows origin) (mark_burned env intent m)
  unfolding mark_burned
  mark_burned-Maintains intent m =
      search (maintains_rules, patch_intent-Maintains, transition_intent-Maintains)

  pub reassociate_intent-Maintains :
      (intent : Intent) (d : DecodedMessage)
      → Maintains (Grows origin) (reassociate_intent env intent d)
  unfolding reassociate_intent
  reassociate_intent-Maintains intent d =
      search (maintains_rules, patch_intent-Maintains, ensure_user_for_address-Maintains)

  burned_first-Maintains :
      (intent : Intent) (p : IntentPatch) → Maintains (Grows origin) (burned_first env intent p)
  unfolding burned_first
  burned_first-Maintains intent p = search (maintains_rules, transition_intent-Maintains)

  then_attested-Maintains :
      (p : IntentPatch) (intent : Intent) → Maintains (Grows origin) (then_attested env p intent)
  unfolding then_attested
  then_attested-Maintains p intent =
      search (maintains_rules, patch_intent-Maintains, transition_intent-Maintains)

  pub advance_to_attested-Maintains :
      (intent : Intent) (d : DecodedMessage)
      → Maintains (Grows origin) (advance_to_attested env intent d)
  unfolding advance_to_attested
  advance_to_attested-Maintains intent d =
      search (maintains_rules, burned_first-Maintains, then_attested-Maintains)

  move_or_patch-Maintains :
      (intent : Intent) (to : OnrampStatus) (p : IntentPatch)
      → Maintains (Grows origin) (move_or_patch env intent to p)
  unfolding move_or_patch
  move_or_patch-Maintains intent to p =
      search (maintains_rules, patch_intent-Maintains, transition_intent-Maintains)

  pub park_needs_onboarding-Maintains :
      (intent : Intent) (d : DecodedMessage)
      → Maintains (Grows origin) (park_needs_onboarding env intent d)
  unfolding park_needs_onboarding
  park_needs_onboarding-Maintains intent d = search move_or_patch-Maintains

  pub fail_intent-Maintains :
      (intent : Intent) (reason : String) → Maintains (Grows origin) (fail_intent env intent reason)
  unfolding fail_intent
  fail_intent-Maintains intent reason = search move_or_patch-Maintains

  minted_first-Maintains :
      (intent : Intent) (p : IntentPatch) → Maintains (Grows origin) (minted_first env intent p)
  unfolding minted_first
  minted_first-Maintains intent p = search (maintains_rules, transition_intent-Maintains)

  then_credited-Maintains :
      (p : IntentPatch) (intent : Intent) → Maintains (Grows origin) (then_credited env p intent)
  unfolding then_credited
  then_credited-Maintains p intent = search (maintains_rules, transition_intent-Maintains)

  mark_credited-Maintains :
      (intent : Intent) (settle : SettleDepositResult)
      → Maintains (Grows origin) (mark_credited env intent settle)
  unfolding mark_credited
  mark_credited-Maintains intent settle =
      search (maintains_rules, minted_first-Maintains, then_credited-Maintains)

  mirror-Maintains :
      (intent : Intent) (org : String) (amount : Text) (entry : Option FundingToken)
      → Maintains (Grows origin) (mirror env intent org amount entry)
  unfolding mirror
  mirror-Maintains intent org amount none = search maintains_rules
  mirror-Maintains intent org amount (some entry) =
      atomic-Maintains origin _ (insert_deposit-Grows _)

  funded-Maintains :
      (intent : Intent) (org : Option String) (amount : Option Text)
      → Maintains (Grows origin) (funded env intent org amount)
  unfolding funded
  funded-Maintains intent (some org) (some amount) = mirror-Maintains intent org amount _
  funded-Maintains intent (some org) none = search maintains_rules
  funded-Maintains intent none _ = search maintains_rules

  finalize_treasury_funding-Maintains :
      (intent : Intent) → Maintains (Grows origin) (finalize_treasury_funding env intent)
  unfolding finalize_treasury_funding
  finalize_treasury_funding-Maintains intent = funded-Maintains intent _ _

  pub credit_minted-Maintains :
      (intent : Intent) → Maintains (Grows origin) (credit_minted env intent)
  unfolding credit_minted
  credit_minted-Maintains intent =
      search (maintains_rules, transition_intent-Maintains, finalize_treasury_funding-Maintains)

  pub credit_settled-Maintains :
      (intent : Intent) (settle : SettleDepositResult)
      → Maintains (Grows origin) (credit_settled env intent settle)
  unfolding credit_settled
  credit_settled-Maintains intent settle =
      search (maintains_rules, mark_credited-Maintains, finalize_treasury_funding-Maintains)
