-- ===== src/Tests/Accounts.antt =====
-- One transaction on sample accounts.
use shiva_blockchain.Base.{
  ◌+◌, ◌-◌, ◌^◌, ◌≤◌, ◌<◌, String, ◌≡◌, refl, ◌≢◌, ◌↔◌, true, [], arith, eq_iff, u64_mod, add64, ok,
  err,
}
use shiva_blockchain.Types.{Transaction, ChainState, AccountState}
use shiva_blockchain.Types.{hex_decode}
use shiva_blockchain.Crypto.{tx_payload, verify_tx}
use shiva_blockchain.State.{
  TxError, account, apply_transaction, check_transaction, credit, debit, pay_fee,
  compute_state_root,
}
use shiva_blockchain.State.Supply
use shiva_blockchain.State.Supply.{supply, supply-apply_transaction}
use shiva_blockchain.State.Accounts.{no_replay, accepted_iff}
use shiva_blockchain.State.Minting.{coinbase_mints, overflow_mints}
use shiva_blockchain.Tests.Samples.{toy, alice, bob, funded, payment, mint}
use shiva_blockchain.Assoc.{lookup, insert}
use shiva_blockchain.State.Root.{compute_state_root_content}
use shiva_blockchain.Assoc.Keys.{insert-IsMap, nil-IsMap}
use shiva_blockchain.Assoc.Laws.{lookup-insert}

-- A payment of 2 ^ 64 - 1 coins with a fee of one.
abbrev wrapping : Transaction
wrapping = record payment { amount = 2 ^ 64 - 1 }

abbrev after_payment : ChainState
after_payment = pay_fee 1 "" (credit bob 10 (debit payment funded))

payment_applies : apply_transaction toy funded payment "" ≡ ok after_payment
unfolding apply_transaction check_transaction verify_tx hex_decode shiva_blockchain.Assoc.get_or
    shiva_blockchain.Assoc.lookup add64
payment_applies = refl

alice-is_named : alice ≢ ""
alice-is_named h = ground (arith, eq_iff alice "")

funded-supply_small : supply funded + 10 < u64_mod
unfolding supply shiva_blockchain.Assoc.Laws.sum_by
funded-supply_small = omega arith

alice-balance_small : (account funded alice).balance < u64_mod
unfolding shiva_blockchain.Assoc.get_or shiva_blockchain.Assoc.lookup
alice-balance_small = omega arith

alice-nonce : (account funded alice).nonce ≡ 0
unfolding shiva_blockchain.Assoc.get_or shiva_blockchain.Assoc.lookup
alice-nonce = refl

wrapping-is_signed : verify_tx toy alice (tx_payload wrapping) "07" ≡ true
unfolding verify_tx hex_decode
wrapping-is_signed = refl

supply-apply_transaction_example : supply after_payment + Supply.burned payment "" ≡ supply funded
unfolding supply shiva_blockchain.Assoc.Laws.sum_by
supply-apply_transaction_example =
    supply-apply_transaction toy funded payment "" alice-is_named (omega arith) (omega arith)
      payment_applies

no_replay_example : (e : TxError) × (apply_transaction toy after_payment payment bob ≡ err e)
no_replay_example = no_replay toy funded payment "" bob alice-is_named (omega arith) payment_applies

accepted_iff_example : ((s : ChainState) × (apply_transaction toy funded payment "" ≡ ok s)) ↔ (
    (add64 10 1 ≤ (account funded alice).balance)
    × ((account funded alice).nonce ≡ 0)
    × (verify_tx toy alice (tx_payload payment) "07" ≡ true))
accepted_iff_example = accepted_iff toy funded payment "" alice-is_named

coinbase_mints_example :
    (s' : ChainState) × (apply_transaction toy funded mint "" ≡ ok s')
    × (supply s' ≡ supply funded + 10)
coinbase_mints_example = coinbase_mints toy funded mint "" refl funded-supply_small

overflow_mints_example :
    (s' : ChainState) × (apply_transaction toy funded wrapping "" ≡ ok s')
    × ((account s' alice).balance ≡ (account funded alice).balance)
    × ((account s' bob).balance ≡ add64 (account funded bob).balance (2 ^ 64 - 1))
overflow_mints_example =
    overflow_mints toy funded wrapping alice-is_named (λ h. ground (arith, eq_iff bob alice)) refl
      alice-balance_small alice-nonce wrapping-is_signed

abbrev one_way : ChainState
one_way =
    insert alice (record { balance = 3; nonce = 0 })
      (insert bob (record { balance = 4; nonce = 1 }) [])

abbrev other_way : ChainState
other_way =
    insert bob (record { balance = 4; nonce = 1 })
      (insert alice (record { balance = 3; nonce = 0 }) [])

same_content : (a : String) → lookup a one_way ≡ lookup a other_way
unfolding lookup
same_content a =
    let v : AccountState = record { balance = 3; nonce = 0 } in
    let w : AccountState = record { balance = 4; nonce = 1 } in
    ground (
      arith,
      eq_iff alice a,
      eq_iff bob a,
      eq_iff alice bob,
      lookup-insert alice a v (insert bob w []),
      lookup-insert bob a w [],
      lookup-insert bob a w (insert alice v []),
      lookup-insert alice a v [],
    )

compute_state_root_content_example :
    compute_state_root toy one_way ≡ compute_state_root toy other_way
compute_state_root_content_example =
    compute_state_root_content toy one_way other_way
      (insert-IsMap alice _ _ (insert-IsMap bob _ _ nil-IsMap))
      (insert-IsMap bob _ _ (insert-IsMap alice _ _ nil-IsMap)) same_content
