-- ===== src/Disclosure/Verified.antt =====
-- What a verified disclosure of disclosure/verify.ts means.
use benzo_main.Prelude.{
  ℕ, ◌≡◌, refl, ap, ◌∙◌, Text, true, Option, none, some, List, [], ◌∷◌, ◌==◌, ==_iff, find,
  Bool-cases, inl, inr, Bool, suc, sym, get_elem?, find_holds, decimal_value, text_eq, text_eq_iff,
  to_lower_case, arith,
}
use benzo_main.Disclosure.Cover.{InForce, key_covers_event-InForce}
use benzo_main.Service.{Result, ok, err, bind_result-eq-ok, ok-injective}
use benzo_main.Indexer.{Event}
use benzo_main.Disclosure.{
  AuditorKey, DisclosureReveal, AuditorPct, DisclosureEnv, verified, Recovered, recovered,
  unrecovered, of_decryption, same_point, same_address, normalize_address, recover_from,
  recover_disclosed_amount, agrees, check_recovered, public_key, with_auditor_key, with_pct,
  with_event, is_event, key_covers_event, find_key_for_event, verify_disclosure,
}

find-elem :
    {A : Type 0} (p : A → Bool) (xs : List A) (x : A)
    → find p xs ≡ some x
    → (i : ℕ) × (get_elem? xs i ≡ some x)
find-elem p [] x h = cc h
find-elem p (y ∷ ys) x h = elim (Bool-cases (p y)) [
  | inl hit ↦ (0, rw hit at h)
  | inr miss ↦ (let (i, is) = find-elem p ys x (rw miss at h) in (suc i, is))
]

stored-eq :
    (env : DisclosureEnv) (a : Text) (stored : Option Text)
    → same_address env (some a) stored ≡ true
    → stored ≡ some a
stored-eq env a none h = cc h
stored-eq env a (some b) h = ap some (sym ((text_eq_iff a b).0 h))

module _ (env : DisclosureEnv) (reveal : DisclosureReveal) where
  -- The reveal opens this encrypted amount, for this key of the auditor.
  pub record Opens (pct : Text) (key : AuditorKey) (amount : ℕ) : Type 0 where
    pub opened : AuditorPct
    pub decodes : env.decode_auditor_pct pct ≡ ok opened
    pub bound : env.mul_point_escalar env.base8 reveal.enc_random ≡ opened.auth_key
    pub decrypts :
        env.poseidon_decrypt opened.ciphertext
          (env.mul_point_escalar
            (decimal_value key.public_key_x, decimal_value key.public_key_y)
            reveal.enc_random)
          opened.nonce
        ≡ ok (some amount)

  -- A counterparty that is claimed is an address, and its checksummed form in lower case is stored.
  abbrev pub IsStored : Option Text → Option Text → Type 0
  IsStored none stored = Unit
  IsStored (some claimed) stored =
      (env.is_address claimed ≡ true) × (stored ≡ some (to_lower_case (env.get_address claimed)))

  pub record Discloses (events : List Event) (keys : List AuditorKey) (tx_hash : Text)
      (log_index amount : ℕ) (key : AuditorKey) (row : Event) : Type 0 where
    pub event : (i : ℕ) × (get_elem? events i ≡ some row)
    pub hash_is : row.tx_hash ≡ to_lower_case tx_hash
    pub index_is : row.log_index ≡ log_index
    pub auditor : (i : ℕ) × (get_elem? keys i ≡ some key)
    pub covers : InForce key row
    pub pct : Text
    pub encrypted : row.amount_pct ≡ some pct
    pub opens : Opens pct key amount
    pub claimed : amount ≡ reveal.claimed_amount
    pub from : IsStored reveal.from row.from_addr
    pub to : IsStored reveal.to row.to_addr

  same_point-eq : (p q : ℕ × ℕ) → same_point p q ≡ true → p ≡ q
  same_point-eq (a, b) (c, d) h =
      let first : a ≡ c = ground (arith, h) in
      let second : b ≡ d = ground (arith, h) in rw (first, second) refl

  some-IsStored :
      (claimed : Text) (stored : Option Text)
      → agrees env (some claimed) stored ≡ true
      → IsStored (some claimed) stored
  unfolding normalize_address
  some-IsStored claimed stored h = elim (Bool-cases (env.is_address claimed)) [
    | inl valid ↦
        (valid, stored-eq env (to_lower_case (env.get_address claimed)) stored (rw valid at h))
    | inr other ↦ cc (rw other at h)
  ]

  agrees-IsStored :
      (claimed stored : Option Text) → agrees env claimed stored ≡ true → IsStored claimed stored
  agrees-IsStored none stored h = tt
  agrees-IsStored (some claimed) stored h = some-IsStored claimed stored h

  decryption-eq :
      (r : Result (Option ℕ)) (amount : ℕ)
      → of_decryption r ≡ recovered amount
      → r ≡ ok (some amount)
  decryption-eq (ok (some a)) amount h = cc h
  decryption-eq (ok none) amount h = cc h
  decryption-eq (err e) amount h = cc h

  recover-Opens :
      (pct : Text) (key : AuditorKey) (amount : ℕ) (r : Result AuditorPct)
      → env.decode_auditor_pct pct ≡ r
      → recover_from env (public_key key) reveal.enc_random r ≡ recovered amount
      → Opens pct key amount
  recover-Opens pct key amount (err e) decodes h = cc h
  recover-Opens pct key amount (ok opened) decodes h =
      elim (Bool-cases
        (same_point (env.mul_point_escalar env.base8 reveal.enc_random) opened.auth_key)) [
          | inl bound ↦ record {
            opened = opened;
            decodes = decodes;
            bound = same_point-eq _ opened.auth_key bound;
            decrypts = decryption-eq _ amount (rw bound at h);
          }
          | inr other ↦ cc (rw other at h)
        ]

  -- What the last checks leave.
  record Checks (row row' : Event) (key key' : AuditorKey) (amount : ℕ) (r : Recovered)
      : Type 0 where
    pub same_row : row ≡ row'
    pub same_key : key ≡ key'
    pub is : r ≡ recovered amount
    pub claimed : amount ≡ reveal.claimed_amount
    pub from : IsStored reveal.from row.from_addr
    pub to : IsStored reveal.to row.to_addr

  check-Checks :
      (row row' : Event) (key key' : AuditorKey) (amount : ℕ) (r : Recovered)
      → check_recovered env reveal row key r ≡ verified amount key' row'
      → Checks row row' key key' amount r
  check-Checks row row' key key' amount (unrecovered reason) h = cc h
  check-Checks row row' key key' amount (recovered a) h =
      elim (Bool-cases (a == reveal.claimed_amount)) [
        | inr other ↦ cc (rw other at h)
        | inl claimed ↦ elim (Bool-cases (agrees env reveal.from row.from_addr)) [
          | inr other ↦ cc (rw (claimed, other) at h)
          | inl from ↦ elim (Bool-cases (agrees env reveal.to row.to_addr)) [
            | inr other ↦ cc (rw (claimed, from, other) at h)
            | inl to ↦
                (let same : verified a key row ≡ verified amount key' row' =
                    rw (claimed, from, to) at h in
                  let equal = (==_iff a reveal.claimed_amount).0 claimed in
                  record {
                    same_row = cc same;
                    same_key = cc same;
                    is = cc same;
                    claimed = cc (same, equal);
                    from = agrees-IsStored reveal.from row.from_addr from;
                    to = agrees-IsStored reveal.to row.to_addr to;
                  })
          ]
        ]
      ]

  -- The key that is found is one of the keys, and covers the event.
  find_key-listed :
      (keys : List AuditorKey) (row : Event) (key : AuditorKey)
      → find_key_for_event keys row ≡ ok (some key)
      → ((i : ℕ) × (get_elem? keys i ≡ some key)) × InForce key row
  unfolding find_key_for_event
  find_key-listed [] row key h = let e = ok-injective h in cc e
  find_key-listed (k ∷ keys) row key h =
      let (covers, is, rest) = bind_result-eq-ok (key_covers_event k row) _ h in
      elim (Bool-cases covers) [
        | inl on ↦
            (let e = ok-injective (rw on at rest) in
              let same : k ≡ key = cc e in
              rw (← same) ((0, refl), key_covers_event-InForce k row (is ∙ ap ok on)))
        | inr off ↦
            (let ((i, listed), covered) = find_key-listed keys row key (rw off at rest) in
              ((suc i, listed), covered))
      ]

  key-Discloses :
      (events : List Event) (keys : List AuditorKey) (tx_hash : Text) (log_index amount : ℕ)
      (row' row : Event) (pct : Text) (found_key : Option AuditorKey) (key : AuditorKey)
      → find (is_event tx_hash log_index) events ≡ some row'
      → row'.amount_pct ≡ some pct
      → find_key_for_event keys row' ≡ ok found_key
      → with_auditor_key env reveal row' pct found_key ≡ ok (verified amount key row)
      → Discloses events keys tx_hash log_index amount key row
  unfolding recover_disclosed_amount
  key-Discloses events keys tx_hash log_index amount row' row pct none key found has_pct at h =
      let e = ok-injective h in cc e
  key-Discloses events keys tx_hash log_index amount row' row pct (some k) key found has_pct at h =
      let (listed, covered) = find_key-listed keys row' k at in
      let hit = find_holds (is_event tx_hash log_index) events row' found in
      let hash_on : text_eq row'.tx_hash (to_lower_case tx_hash) ≡ true = ground (arith, hit) in
      let index_on : (row'.log_index == log_index) ≡ true = ground (arith, hit) in
      let c = check-Checks row' row k key amount _ (ok-injective h) in
      rw (← c.same_row, ← c.same_key)
        (record {
          event = find-elem (is_event tx_hash log_index) events row' found;
          hash_is = (text_eq_iff row'.tx_hash (to_lower_case tx_hash)).0 hash_on;
          index_is = (==_iff row'.log_index log_index).0 index_on;
          auditor = listed;
          covers = covered;
          pct = pct;
          encrypted = has_pct;
          opens = recover-Opens pct k amount (env.decode_auditor_pct pct) refl c.is;
          claimed = c.claimed;
          from = c.from;
          to = c.to;
        })

  pct-Discloses :
      (events : List Event) (keys : List AuditorKey) (tx_hash : Text) (log_index amount : ℕ)
      (row' row : Event) (pct : Option Text) (key : AuditorKey)
      → find (is_event tx_hash log_index) events ≡ some row'
      → row'.amount_pct ≡ pct
      → with_pct env keys reveal row' pct ≡ ok (verified amount key row)
      → Discloses events keys tx_hash log_index amount key row
  pct-Discloses events keys tx_hash log_index amount row' row none key found has_pct h =
      let e = ok-injective h in cc e
  pct-Discloses events keys tx_hash log_index amount row' row (some pct) key found has_pct h =
      let (found_key, is, rest) = bind_result-eq-ok (find_key_for_event keys row') _ h in
      key-Discloses events keys tx_hash log_index amount row' row pct found_key key found has_pct is
        rest

  event-Discloses :
      (events : List Event) (keys : List AuditorKey) (tx_hash : Text) (log_index amount : ℕ)
      (found : Option Event) (row : Event) (key : AuditorKey)
      → find (is_event tx_hash log_index) events ≡ found
      → with_event env keys reveal found ≡ ok (verified amount key row)
      → Discloses events keys tx_hash log_index amount key row
  event-Discloses events keys tx_hash log_index amount none row key is h =
      let e = ok-injective h in cc e
  event-Discloses events keys tx_hash log_index amount (some row') row key is h =
      pct-Discloses events keys tx_hash log_index amount row' row row'.amount_pct key is refl h

  -- A disclosure that is verified is of one of the events, with this transaction hash in lower case
  -- and this log index. The key is one of the auditor's keys, and the event lies at or after its
  -- activation and before its retirement. The reveal's secret gives the key that the event's
  -- encrypted amount carries, the amount decrypts with it to the one that is claimed, and a sender
  -- or receiver that is claimed is an address, and the event's.
  pub verify_disclosure-Discloses :
      (events : List Event) (keys : List AuditorKey) (tx_hash : Text) (log_index amount : ℕ)
      (key : AuditorKey) (row : Event)
      → verify_disclosure env events keys tx_hash log_index reveal ≡ ok (verified amount key row)
      → Discloses events keys tx_hash log_index amount key row
  unfolding verify_disclosure
  verify_disclosure-Discloses events keys tx_hash log_index amount key row h =
      event-Discloses events keys tx_hash log_index amount
        (find (is_event tx_hash log_index) events) row key refl h
