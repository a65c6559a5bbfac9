-- ===== src/Bridge/Portfolio.antt =====
-- internal/bridge/portfolio.go, and how internal/bridge/defi.go and real.go load a portfolio. A
-- balance is the number that `GetBalance` reads from its text. `GetPortfolio` keeps the object that
-- it returns in the store's map, so what a method writes to it stays, also if the method then fails:
-- every operation below returns the object beside its result.
use shiva_blockchain.Base.{
  ℕ, ◌-◌, String, Bool, ◌||◌, Option, none, some, List, [], ◌∷◌, str_eq, ltb, ◌==◌, if◌then◌else◌,
  u64_mod, add64, Result, ok, err,
}
use shiva_blockchain.Base.Int.{ℤ}
use shiva_blockchain.Assoc.{Assoc, insert, get_or}
use shiva_blockchain.Bridge.Registry.{token_key}

pub record DepositRecord : Type 0 where
  pub id : String
  pub chain_id : String
  pub token_id : String
  pub amount : ℕ
  pub tx_hash : String
  pub status : String
  pub created_at : ℤ

pub record SwapRecord : Type 0 where
  pub id : String
  pub from_key : String
  pub to_key : String
  pub from_amt : ℕ
  pub to_amt : ℕ
  pub status : String
  pub created_at : ℤ

pub record NftAsset : Type 0 where
  pub id : String
  pub chain_id : String
  pub name : String
  pub description : String
  pub image_url : String
  pub owner : String
  pub created_at : ℤ

pub record TaskItem : Type 0 where
  pub id : String
  pub reward_key : String
  pub reward_amt : ℕ
  pub status : String

pub record LoanRecord : Type 0 where
  pub id : String
  pub kind : String
  pub collateral_key : String
  pub collateral_amt : ℕ
  pub debt_key : String
  pub debt_amt : ℕ
  pub status : String
  pub created_at : ℤ

pub record StakeRecord : Type 0 where
  pub id : String
  pub pool_id : String
  pub stake_key : String
  pub receipt_key : String
  pub amount : ℕ
  pub receipt_amt : ℕ
  pub staked_at : ℤ
  pub unlock_at : ℤ
  pub status : String

pub record Portfolio : Type 0 where
  pub address : String
  pub balances : Assoc ℕ
  pub deposits : List DepositRecord
  pub swaps : List SwapRecord
  pub nfts : List NftAsset
  pub tasks : List TaskItem
  pub loans : List LoanRecord
  pub stakes : List StakeRecord

pub data BridgeError : Type 0 where
  insufficient_balance stake_not_found locked below_minimum : BridgeError
  stake_pool_not_found nft_not_found task_not_found loan_not_found bad_amount : BridgeError
  same_token no_pool pool_not_found slippage_exceeded pool_failed : BridgeError

-- The time and the new ID that an operation takes from its surroundings.
pub record Stamp : Type 0 where
  pub now : ℤ
  pub new_id : String

-- `GetBalance`
unfoldable pub get_balance : String → Portfolio → ℕ
get_balance key p = get_or 0 key p.balances

-- `SetBalance`
unfoldable pub set_balance : String → ℕ → Portfolio → Portfolio
set_balance key amount p = record p { balances = insert key amount p.balances }

-- `AddBalance`
unfoldable pub add_balance : String → ℕ → Portfolio → Portfolio
add_balance key delta p = set_balance key (add64 (get_balance key p) delta) p

-- `SubBalance`
unfoldable pub sub_balance : String → ℕ → Portfolio → Result BridgeError (Unit {0}) × Portfolio
sub_balance key delta p =
    if ltb (get_balance key p) delta
    then (err insufficient_balance, p)
    else (ok tt, set_balance key (get_balance key p - delta) p)

abbrev pub onex_key : String
onex_key = token_key "onex-mainnet-1" "ONEX"

-- The balances that a portfolio starts with outside of production.
abbrev pub demo_balances : Assoc ℕ
demo_balances =
    ("ethereum:USDT", 5000000000)
    ∷ ("ethereum:ETH", 100000000)
    ∷ ("bsc:BNB", 2000000000)
    ∷ ("polygon:USDC-POLY", 3000000000)
    ∷ ("onex-mainnet-1:wONEX", 10000000000)
    ∷ []

abbrev open_task : String → String → ℕ → TaskItem
open_task id key amount = record { id = id; reward_key = key; reward_amt = amount; status = "open" }

-- `defaultTasks`, without the texts for display.
abbrev pub default_tasks : List TaskItem
default_tasks =
    open_task "welcome" "onex-mainnet-1:ONEX" 1000000000
    ∷ open_task "first-swap" "onex-mainnet-1:ONEX" 500000000
    ∷ open_task "mint-nft" "onex-mainnet-1:wONEX" 100000000
    ∷ open_task "deposit" "onex-mainnet-1:ONEX" 250000000
    ∷ open_task "first-stake" "onex-mainnet-1:sONEX" 200000000
    ∷ open_task "create-token" "onex-mainnet-1:ONEX" 1000000000
    ∷ []

-- `defaultPortfolio`
unfoldable pub default_portfolio : Bool → String → Portfolio
default_portfolio production addr = record {
  address = addr;
  balances = if production then [] else demo_balances;
  deposits = [];
  swaps = [];
  nfts = [];
  tasks = default_tasks;
  loans = [];
  stakes = [];
}

-- What loading a portfolio asks of its surroundings: the node's answer for the balance of the wallet,
-- the mode, and the balances read from other chains, if they can be read.
pub record Surroundings : Type 0 where
  pub node_balance : Option ℕ
  pub production : Bool
  pub chain_balances : Option (List (String × ℕ))

-- `syncOneXBalance`
unfoldable pub sync_onex_balance : Surroundings → Portfolio → Portfolio
sync_onex_balance env p = elim env.node_balance [ none ↦ p | some bal ↦ set_balance onex_key bal p ]

-- The loop over the entries read from other chains, whose amounts are of any size; an entry of 0 or
-- without a key is skipped, and one above uint64 is a text that `GetBalance` reads as 0.
unfoldable pub put_entries : List (String × ℕ) → Assoc ℕ → Assoc ℕ
put_entries [] m = m
put_entries ((key, n) ∷ entries) m =
    put_entries entries
      (if str_eq key "" || n == 0 then m else insert key (if ltb n u64_mod then n else 0) m)

-- `syncRealPortfolio`
unfoldable pub sync_real_portfolio : Surroundings → Portfolio → Portfolio
sync_real_portfolio env p =
    let onex = get_balance onex_key p in
    let kept : Assoc ℕ = if ltb 0 onex then insert onex_key onex [] else [] in
    if env.production
    then record p {
      balances = elim env.chain_balances [ none ↦ kept | some entries ↦ put_entries entries kept ];
    }
    else p

-- `GetPortfolio` of a wallet, where the store's map holds `stored` for its address.
unfoldable pub get_portfolio : Surroundings → String → Option Portfolio → Portfolio
get_portfolio env addr stored =
    let loaded : Portfolio = elim stored [
      | none ↦ default_portfolio env.production addr
      | some p ↦ p
    ] in
    sync_real_portfolio env (sync_onex_balance env loaded)
