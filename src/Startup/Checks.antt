-- ===== src/Startup/Checks.antt =====
-- What the checks before the start establish.
use near_aurora_bridge.Base.{
  ℕ, ◌≤◌, ◌≡◌, refl, ap, ◌∙◌, ◌↔◌, Bool, true, false, not, ◌&&◌, ◌||◌, Option, none, some, List, [],
  ◌∷◌, ◌++◌, ◌==◌, if◌then◌else◌, le→ltb, ==→eq, ==_self, unrecoverable_error, Outcome, ok, err,
  unwrap, >>=-eq-ok,
}
use near_aurora_bridge.Types.{EthAddress}
use near_aurora_bridge.Cosmos.{Coin, Printer}
use near_aurora_bridge.Cosmos.Confirms.{ConfirmParser}
use near_aurora_bridge.Cosmos.Requests.{same_text}
use near_aurora_bridge.Startup.{
  KeysByEth, KeysByOrchestrator, DelegateQueries, compare_keys, compare_answers,
  check_delegate_addresses, starts_with, contains, check_for_fee,
}

both : (b c : Bool) → b && c ≡ true → (b ≡ true) × (c ≡ true)
both true true h = (refl, refl)
both true false h = cc
both false c h = cc

or_true : (b : Bool) → b || true ≡ true
or_true true = refl
or_true false = refl

same_text→eq : (xs ys : List ℕ) → same_text xs ys ≡ true → xs ≡ ys
same_text→eq [] [] e = refl
same_text→eq [] (y ∷ ys) e = cc
same_text→eq (x ∷ xs) [] e = cc
same_text→eq (x ∷ xs) (y ∷ ys) e =
    let (head, tail) = both (x == y) (same_text xs ys) e in
    cons_eq (==→eq x y head) (same_text→eq xs ys tail)
  where
    cons_eq : x ≡ y → xs ≡ ys → x ∷ xs ≡ y ∷ ys
    cons_eq p q = cc

unwrap-ok : {A : Type 0} (o : Option A) (a : A) → unwrap o ≡ ok a → o ≡ some a
unwrap-ok none a h = cc
unwrap-ok (some b) a h = cc

-- What stands behind the four tests.
verdict : Bool → Bool → Bool → Outcome (Unit {0})
verdict b c v =
    if not b && not c
    then err unrecoverable_error
    else if not b
    then err unrecoverable_error
    else if not c
    then err unrecoverable_error
    else if not v
    then err unrecoverable_error
    else ok tt

passed : (b c v : Bool) → verdict b c v ≡ ok tt → (b ≡ true) × (c ≡ true) × (v ≡ true)
unfolding verdict
passed true true true h = (refl, refl, refl)
passed true true false h = cc
passed true false v h = cc
passed false true v h = cc
passed false false v h = cc

-- The chain's record of the delegate keys, as two answers, matches the addresses at hand.
abbrev pub KeysMatch : ConfirmParser → EthAddress → ℕ → KeysByEth → KeysByOrchestrator → Type 0
KeysMatch r eth orchestrator e o =
    (r.parse_cosmos_address e.orchestrator_address ≡ some orchestrator)
    × (r.parse_eth_address o.eth_address ≡ some eth)
    × (e.validator_address ≡ o.validator_address)

compare_keys-KeysMatch :
    (r : ConfirmParser) (eth : EthAddress) (orchestrator : ℕ) (e : KeysByEth)
    (o : KeysByOrchestrator)
    → compare_keys r eth orchestrator e o ≡ ok tt
    → KeysMatch r eth orchestrator e o
unfolding compare_keys verdict
compare_keys-KeysMatch r eth orchestrator e o h =
    let (a, ea, h1) = >>=-eq-ok (unwrap (r.parse_cosmos_address e.orchestrator_address)) _ h in
    let (b, eb, h2) = >>=-eq-ok (unwrap (r.parse_eth_address o.eth_address)) _ h1 in
    let (same_eth, same_orchestrator, same_validator) =
      passed (b == eth) (a == orchestrator) (same_text e.validator_address o.validator_address)
        h2 in
    (
      unwrap-ok _ a ea ∙ ap some (==→eq a orchestrator same_orchestrator),
      unwrap-ok _ b eb ∙ ap some (==→eq b eth same_eth),
      same_text→eq e.validator_address o.validator_address same_validator,
    )

same_text_self : (xs : List ℕ) → same_text xs xs ≡ true
same_text_self [] = refl
same_text_self (x ∷ xs) = rw (==_self x, same_text_self xs) refl

KeysMatch-compare_keys :
    (r : ConfirmParser) (eth : EthAddress) (orchestrator : ℕ) (e : KeysByEth)
    (o : KeysByOrchestrator)
    → KeysMatch r eth orchestrator e o
    → compare_keys r eth orchestrator e o ≡ ok tt
unfolding compare_keys
KeysMatch-compare_keys r eth orchestrator e o (ea, eb, same) =
    rw
      (
        compare_keys,
        ea,
        eb,
        ==_self orchestrator,
        ==_self eth,
        same,
        same_text_self o.validator_address,
      )
      refl

-- The chain knows both addresses, and its answers match.
abbrev pub KeysFound : ConfirmParser → Printer → DelegateQueries → EthAddress → ℕ → List ℕ → Type 0
KeysFound r d client eth orchestrator prefix =
    (bech32 : List ℕ) × (e : KeysByEth) × (o : KeysByOrchestrator) × (d.to_bech32 prefix
        orchestrator
      ≡ some bech32)
    × (client.get_delegate_key_by_eth (d.eth_address_to_string eth) ≡ some e)
    × (client.get_delegate_key_by_orchestrator bech32 ≡ some o)
    × KeysMatch r eth orchestrator e o

-- The check of the delegate addresses passes exactly if the chain knows both addresses, each query
-- gives the other address, and both give the same validator.
pub check_delegate_addresses-KeysMatch :
    (r : ConfirmParser) (d : Printer) (client : DelegateQueries) (eth : EthAddress)
    (orchestrator : ℕ) (prefix : List ℕ)
    → (check_delegate_addresses r d client eth orchestrator prefix ≡ ok tt)
      ↔ KeysFound r d client eth orchestrator prefix
unfolding check_delegate_addresses compare_answers
check_delegate_addresses-KeysMatch r d client eth orchestrator prefix = (there, back)
  where
    answers :
        (oe : Option KeysByEth) (oo : Option KeysByOrchestrator)
        → compare_answers r eth orchestrator oe oo ≡ ok tt
        → (e : KeysByEth) × (o : KeysByOrchestrator) × (oe ≡ some e)
          × (oo ≡ some o)
          × (compare_keys r eth orchestrator e o ≡ ok tt)
    answers none none h = cc
    answers none (some o) h = cc
    answers (some e) none h = cc
    answers (some e) (some o) h = (e, o, refl, refl, h)

    there :
        check_delegate_addresses r d client eth orchestrator prefix ≡ ok tt
        → KeysFound r d client eth orchestrator prefix
    there h =
        let (bech32, eb, h1) = >>=-eq-ok (unwrap (d.to_bech32 prefix orchestrator)) _ h in
        let (e, o, ee, eo, same) =
          answers (client.get_delegate_key_by_eth (d.eth_address_to_string eth))
            (client.get_delegate_key_by_orchestrator bech32) h1 in
        let matches = compare_keys-KeysMatch r eth orchestrator e o same in
        (bech32, e, o, unwrap-ok _ bech32 eb, ee, eo, matches)

    back :
        KeysFound r d client eth orchestrator prefix
        → check_delegate_addresses r d client eth orchestrator prefix ≡ ok tt
    back (bech32, e, o, eb, ee, eo, matches) =
        rw (check_delegate_addresses, eb, ee, eo, compare_answers)
          (KeysMatch-compare_keys r eth orchestrator e o matches)

starts_with_append : (xs ys : List ℕ) → starts_with (xs ++ ys) xs ≡ true
starts_with_append [] [] = refl
starts_with_append [] (y ∷ ys) = refl
starts_with_append (x ∷ xs) ys = rw (==_self x, starts_with_append xs ys) refl

contains_append : (pre part post : List ℕ) → contains (pre ++ (part ++ post)) part ≡ true
contains_append [] [] [] = refl
contains_append [] [] (y ∷ ys) = refl
contains_append [] (x ∷ xs) ys = rw (==_self x, starts_with_append xs ys) refl
contains_append (x ∷ xs) part post =
    rw (contains_append xs part post) (or_true (starts_with (x ∷ (xs ++ (part ++ post))) part))

-- The check of the fee looks for the fee's denomination inside of those of the balances: a balance
-- in any token whose denomination has the fee's denomination as a part stands for the fee, if no
-- balance before it does, even if the account holds nothing in the fee's own denomination.
pub check_for_fee_substring :
    (fee : Coin) (pre post : List ℕ) (amount : ℕ) (balances : List Coin)
    → fee.amount ≤ amount
    → check_for_fee fee (record { amount = amount; denom = pre ++ (fee.denom ++ post) } ∷ balances)
      ≡ ok tt
unfolding check_for_fee
check_for_fee_substring fee pre post amount balances h =
    rw (contains_append pre fee.denom post, le→ltb amount fee.amount h) refl
