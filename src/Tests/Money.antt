-- ===== src/Tests/Money.antt =====
-- Amounts, stakes and loans of a sample portfolio.
use shiva_blockchain.Base.{
  ℕ, zero, suc, ◌+◌, ◌-◌, ◌*◌, ◌/◌, ◌%◌, ◌^◌, ◌≤◌, ◌<◌, String, ◌≡◌, refl, sym, ap, ◌∙◌, ◌≢◌, ◌↔◌,
  ◌⊎◌, inl, inr, Bool, true, false, not, ◌&&◌, ◌||◌, Option, none, some, List, [], ◌∷◌, ◌++◌, map,
  foldl, arith, str_eq, eq_iff, eq_refl, ltb, leb, ◌==◌, if◌then◌else◌, ltb→lt, lt→ltb, leb→le,
  ==_iff, tests, Bool-cases, Option-cases, length, take, length-append, length-take-le, u64_mod,
  add64, sub64, mul64, add64-eq-add, sub64-eq-sub, add64-lt, word_laws, Result, ok, err, ◌>>=◌,
  ◌>>◌, fail_if, or_fail, map_err, Result-cases, Bytes, codes, has_prefix, decimal, decimal_string,
  str_append,
}
use shiva_blockchain.Base.Int.{pos}
use shiva_blockchain.Rpc.Amount.{parse_amount, unit_size}
use shiva_blockchain.Rpc.Amount.Printed.{parse_amount-decimal_string}
use shiva_blockchain.Bridge.Portfolio
use shiva_blockchain.Bridge.Portfolio.{
  Portfolio, StakeRecord, LoanRecord, Surroundings, Stamp, insufficient_balance, bad_amount,
  onex_key, get_balance, get_portfolio, default_portfolio,
}
use shiva_blockchain.Bridge.Staking.{
  Floats, close_stake, unstake, StakePool, find_stake_pool, minimum, stake_record,
}
use shiva_blockchain.Bridge.Tasks.{request_task}
use shiva_blockchain.Bridge.Loans.{parse_atomic_amount, create_loan, repay_loan}
use shiva_blockchain.Bridge.Aliasing.{create_loan_loses_collateral}
use shiva_blockchain.Bridge.Restaking.{request, after, staked, stakes_never_run_out}

parse_amount-decimal_string_example : parse_amount (decimal_string 250) ≡ ok (mul64 250 unit_size)
parse_amount-decimal_string_example = parse_amount-decimal_string 250 (omega arith)

-- Numbers in place of floats.
abbrev whole : Floats
whole = record {
  F = ℕ;
  of_int = λ n. 1;
  multiply = λ a b. a * b;
  divide = λ a b. a / b;
  truncate = λ a. a;
}

abbrev no_rate : StakeRecord → ℕ
no_rate s = 0

abbrev a_stake : StakeRecord
a_stake = record {
  id = "s1";
  pool_id = "p";
  stake_key = "onex-mainnet-1:ONEX";
  receipt_key = "onex-mainnet-1:sONEX";
  amount = 1000;
  receipt_amt = 1001;
  staked_at = pos 0;
  unlock_at = pos 0;
  status = "active";
}

abbrev a_loan : LoanRecord
a_loan = record {
  id = "l1";
  kind = "borrow";
  collateral_key = "ethereum:ETH";
  collateral_amt = 10;
  debt_key = "ethereum:USDT";
  debt_amt = 20;
  status = "active";
  created_at = pos 0;
}

abbrev holder : Portfolio
holder = record (default_portfolio false "w") {
  balances = ("onex-mainnet-1:sONEX", 1001) ∷ ("ethereum:ETH", 50) ∷ ("ethereum:USDT", 90) ∷ [];
  stakes = a_stake ∷ [];
  loans = a_loan ∷ [];
}

unstake_works : (unstake whole no_rate (pos 9) "s1" holder).0 ≡ ok 1000
unfolding unstake close_stake Portfolio.sub_balance get_balance shiva_blockchain.Assoc.get_or
    shiva_blockchain.Assoc.lookup add64 shiva_blockchain.Bridge.Staking.stake_reward
unstake_works = refl

repay_works : (repay_loan "l1" holder).0 ≡ ok tt
unfolding repay_loan shiva_blockchain.Bridge.Loans.close_loan Portfolio.sub_balance get_balance
    shiva_blockchain.Assoc.get_or shiva_blockchain.Assoc.lookup
repay_works = refl

request_works : (request_task "welcome" holder).0 ≡ ok tt
unfolding request_task shiva_blockchain.Bridge.Tasks.finish_task default_portfolio
request_works = refl

abbrev a_stamp : Stamp
a_stamp = record { now = pos 7; new_id = "x1" }

has_collateral : parse_atomic_amount "30" ≡ ok 30
unfolding parse_atomic_amount shiva_blockchain.Bridge.Loans.scan_number
    shiva_blockchain.Rpc.Amount.trim_space shiva_blockchain.Base.Decimal.Reading.read_digits
has_collateral = refl

covered : 30 ≤ get_balance "ethereum:ETH" holder
unfolding get_balance shiva_blockchain.Assoc.get_or shiva_blockchain.Assoc.lookup
covered = omega arith

bad_debt : parse_atomic_amount "none" ≡ err bad_amount
unfolding parse_atomic_amount shiva_blockchain.Bridge.Loans.scan_number
    shiva_blockchain.Rpc.Amount.trim_space
bad_debt = refl

create_loan_loses_collateral_example :
    let r = create_loan a_stamp "borrow" "ethereum:ETH" "30" "ethereum:USDT" "none" holder in
    (r.0 ≡ err bad_amount)
    × (r.1.loans ≡ holder.loans)
    × (get_balance "ethereum:ETH" r.1 + 30 ≡ get_balance "ethereum:ETH" holder)
create_loan_loses_collateral_example =
    create_loan_loses_collateral a_stamp "borrow" "ethereum:ETH" "30" "ethereum:USDT" "none" holder
      30 has_collateral covered bad_debt

abbrev demo_mode : Surroundings
demo_mode = record { node_balance = some 70; production = false; chain_balances = none }

abbrev onex_pool : StakePool
onex_pool = record {
  id = "onex";
  chain_id = "onex-mainnet-1";
  stake_token = "ONEX";
  receipt_token = "sONEX";
  lock_days = pos 30;
  min_stake = "0.0000001";
}

pool_found : find_stake_pool "onex" (onex_pool ∷ []) ≡ some onex_pool
unfolding find_stake_pool
pool_found = refl

sixty_read : parse_amount "0.0000006" ≡ ok 60
unfolding parse_amount shiva_blockchain.Rpc.Amount.parse_bytes
    shiva_blockchain.Rpc.Amount.trim_space shiva_blockchain.Base.Decimal.Reading.parse_uint
    shiva_blockchain.Rpc.Amount.split_dot shiva_blockchain.Base.Decimal.Reading.read_digits
    shiva_blockchain.Rpc.Amount.parse_fraction shiva_blockchain.Rpc.Amount.pad_right add64 mul64
sixty_read = refl

pool_minimum : minimum onex_pool ≤ 60
unfolding parse_amount shiva_blockchain.Rpc.Amount.parse_bytes
    shiva_blockchain.Rpc.Amount.trim_space shiva_blockchain.Base.Decimal.Reading.parse_uint
    shiva_blockchain.Rpc.Amount.split_dot shiva_blockchain.Base.Decimal.Reading.read_digits
    shiva_blockchain.Rpc.Amount.parse_fraction shiva_blockchain.Rpc.Amount.pad_right add64 mul64
pool_minimum = omega arith

-- Three stakes of 60, and a fourth, with a balance of 70.
stakes_never_run_out_example :
    ((request demo_mode "w" "onex" "0.0000006"
        (onex_pool ∷ [])
        a_stamp
        (after demo_mode "w" "onex" "0.0000006" (onex_pool ∷ []) a_stamp 3 holder)).0
      ≡ ok (stake_record a_stamp onex_pool 60))
    × (staked (after demo_mode "w" "onex" "0.0000006" (onex_pool ∷ []) a_stamp 3 holder).stakes
        ≡ staked holder.stakes + 3 * 60)
stakes_never_run_out_example =
    stakes_never_run_out demo_mode "w" "onex" "0.0000006" (onex_pool ∷ []) a_stamp onex_pool 70 60
      refl refl pool_found refl sixty_read pool_minimum (omega arith) 3 holder
