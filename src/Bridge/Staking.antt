-- ===== src/Bridge/Staking.antt =====
-- internal/bridge/staking.go. The reward of a stake is computed with float64s, whose operations are
-- a parameter.
use shiva_blockchain.Base.{
  ℕ, ◌/◌, String, ◌&&◌, Option, none, some, List, [], ◌∷◌, str_eq, ltb, if◌then◌else◌, add64,
  Result, ok, err,
}
use shiva_blockchain.Base.Int.{ℤ, pos, ◌+ℤ◌, ◌-ℤ◌, ◌*ℤ◌, ltb_ℤ}
use shiva_blockchain.Rpc.Amount.{parse_amount}
use shiva_blockchain.Bridge.Registry.{token_key}
use shiva_blockchain.Bridge.Portfolio.{
  Portfolio, StakeRecord, BridgeError, stake_not_found, locked, below_minimum, stake_pool_not_found,
  bad_amount, Stamp, add_balance, sub_balance,
}
use shiva_blockchain.Bridge.Tasks.{complete_task}

pub record Floats : Type 1 where
  pub F : Type 0
  pub of_int : ℤ → F
  pub multiply : F → F → F
  pub divide : F → F → F
  -- `uint64(x)`
  pub truncate : F → ℕ

pub record StakePool : Type 0 where
  pub id : String
  pub chain_id : String
  pub stake_token : String
  pub receipt_token : String
  pub lock_days : ℤ
  pub min_stake : String

-- `findStakePool`
unfoldable pub find_stake_pool : String → List StakePool → Option StakePool
find_stake_pool id [] = none
find_stake_pool id (x ∷ xs) = if str_eq x.id id then some x else find_stake_pool id xs

-- `minAmt, _ := rpc.ParseAmount(pool.MinStake)`
abbrev pub minimum : StakePool → ℕ
minimum pool = elim (parse_amount pool.min_stake) [ ok n ↦ n | err e ↦ 0 ]

-- 1:1 and a bonus of 0.1%.
unfoldable pub receipt_total : ℕ → ℕ
receipt_total amt = add64 amt (amt / 1000)

unfoldable pub unlock_time : ℤ → ℤ → ℤ
unlock_time now lock_days = if ltb_ℤ (pos 0) lock_days then now +ℤ lock_days *ℤ pos 86400 else now

unfoldable pub stake_record : Stamp → StakePool → ℕ → StakeRecord
stake_record stamp pool amt = record {
  id = stamp.new_id;
  pool_id = pool.id;
  stake_key = token_key pool.chain_id pool.stake_token;
  receipt_key = token_key pool.chain_id pool.receipt_token;
  amount = amt;
  receipt_amt = receipt_total amt;
  staked_at = stamp.now;
  unlock_at = unlock_time stamp.now pool.lock_days;
  status = "active";
}

unfoldable pub stake_amount :
    Stamp → StakePool → ℕ → Portfolio → Result BridgeError StakeRecord × Portfolio
stake_amount stamp pool amt p =
    let rec = stake_record stamp pool amt in
    let (r, p') = sub_balance rec.stake_key amt p in
    if ltb amt (minimum pool) then (err below_minimum, p) else elim r [
      | err e ↦ (err e, p')
      | ok _ ↦
          let paid = add_balance rec.receipt_key rec.receipt_amt p' in
          (ok rec, complete_task "first-stake" (record paid { stakes = rec ∷ paid.stakes }))
    ]

-- `Stake`
unfoldable pub stake :
    Stamp
    → List StakePool
    → String
    → String
    → Portfolio
    → Result BridgeError StakeRecord × Portfolio
unfolding stake_amount
stake stamp pools pool_id amount p = elim (find_stake_pool pool_id pools) [
  | none ↦ (err stake_pool_not_found, p)
  | some pool ↦ elim (parse_amount amount) [
    | err e ↦ (err bad_amount, p)
    | ok amt ↦ stake_amount stamp pool amt p
  ]
]

-- The first active stake of this ID, and the stakes with that one closed.
unfoldable pub close_stake : String → List StakeRecord → Option (StakeRecord × List StakeRecord)
close_stake id [] = none
close_stake id (s ∷ ss) =
    let rest = close_stake id ss in
    if str_eq s.id id && str_eq s.status "active"
    then some (s, record s { status = "unstaked" } ∷ ss)
    else elim rest [ none ↦ none | some (found, ss') ↦ some (found, s ∷ ss') ]

module _ (fl : Floats) where
  -- `uint64(float64(principal) * (s.APY / 100) * days / 365)`
  unfoldable pub stake_reward : fl.F → ℕ → ℤ → ℕ
  stake_reward apy principal elapsed =
      let days = fl.divide (fl.of_int elapsed) (fl.of_int (pos 86400)) in
      let rate = fl.divide apy (fl.of_int (pos 100)) in
      fl.truncate (
        fl.divide (fl.multiply (fl.multiply (fl.of_int (pos principal)) rate) days)
          (fl.of_int (pos 365)))

  -- `Unstake`, with the APY that stands in each record: what was returned.
  unfoldable pub unstake :
      (StakeRecord → fl.F) → ℤ → String → Portfolio → Result BridgeError ℕ × Portfolio
  unstake apy now id p = elim (close_stake id p.stakes) [
    | none ↦ (err stake_not_found, p)
    | some (s, stakes) ↦
        let (r, p') = sub_balance s.receipt_key s.receipt_amt p in
        let returned = add64 s.amount (stake_reward (apy s) s.amount (now -ℤ s.staked_at)) in
        if ltb_ℤ now s.unlock_at then (err locked, p) else elim r [
          | err e ↦ (err e, p')
          | ok _ ↦ (ok returned, record (add_balance s.stake_key returned p') { stakes = stakes })
        ]
  ]
