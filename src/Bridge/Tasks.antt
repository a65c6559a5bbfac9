-- ===== src/Bridge/Tasks.antt =====
-- Tasks, NFTs and deposits of internal/bridge/defi.go, on the portfolio that was loaded.
use shiva_blockchain.Base.{
  ℕ, String, Bool, ◌&&◌, Option, none, some, List, [], ◌∷◌, str_eq, if◌then◌else◌, Result, ok, err,
}
use shiva_blockchain.Rpc.Amount.{parse_amount}
use shiva_blockchain.Bridge.Registry.{ChainInfo, is_onex_chain, token_key}
use shiva_blockchain.Bridge.Portfolio.{
  Portfolio, DepositRecord, NftAsset, TaskItem, BridgeError, task_not_found, nft_not_found,
  bad_amount, Stamp, add_balance,
}

-- Whether a task is the open one of this ID.
abbrev pub is_open : String → TaskItem → Bool
is_open id t = str_eq t.id id && str_eq t.status "open"

-- The reward of the first open task of this ID, and the tasks with that one done.
unfoldable pub finish_task : String → List TaskItem → Option (TaskItem × List TaskItem)
finish_task id [] = none
finish_task id (t ∷ ts) =
    let rest = finish_task id ts in
    if is_open id t
    then some (t, record t { status = "done" } ∷ ts)
    else elim rest [ none ↦ none | some (found, ts') ↦ some (found, t ∷ ts') ]

-- `completeTask`: nothing happens if there is no such task.
unfoldable pub complete_task : String → Portfolio → Portfolio
complete_task id p = elim (finish_task id p.tasks) [
  | none ↦ p
  | some (t, tasks) ↦ add_balance t.reward_key t.reward_amt (record p { tasks = tasks })
]

-- `CompleteTask`, the request of a user.
unfoldable pub request_task : String → Portfolio → Result BridgeError (Unit {0}) × Portfolio
request_task id p = elim (finish_task id p.tasks) [
  | none ↦ (err task_not_found, p)
  | some (t, tasks) ↦ (ok tt, add_balance t.reward_key t.reward_amt (record p { tasks = tasks }))
]

-- `MintNFT` by the wallet `owner`.
unfoldable pub mint_nft :
    Stamp → String → String → String → String → String → Portfolio → NftAsset × Portfolio
mint_nft stamp owner name description image_url chain_id p =
    let nft : NftAsset = record {
      id = stamp.new_id;
      chain_id = chain_id;
      name = name;
      description = description;
      image_url = image_url;
      owner = owner;
      created_at = stamp.now;
    } in
    (nft, complete_task "mint-nft" (record p { nfts = nft ∷ p.nfts }))

unfoldable pub give_nft : String → String → List NftAsset → Option (List NftAsset)
give_nft id to [] = none
give_nft id to (x ∷ xs) =
    let rest = give_nft id to xs in
    if str_eq x.id id
    then some (record x { owner = to } ∷ xs)
    else elim rest [ none ↦ none | some xs' ↦ some (x ∷ xs') ]

-- `TransferNFT`
unfoldable pub transfer_nft :
    String → String → Portfolio → Result BridgeError (Unit {0}) × Portfolio
transfer_nft id to p = elim (give_nft id to p.nfts) [
  | none ↦ (err nft_not_found, p)
  | some nfts ↦ (ok tt, record p { nfts = nfts })
]

-- `RecordDeposit` once the amount was parsed: only a deposit on an "onex" chain is credited.
unfoldable pub deposit_amount :
    Stamp → List ChainInfo → String → String → ℕ → String → Portfolio → DepositRecord × Portfolio
deposit_amount stamp chains chain_id token_id amount tx_hash p =
    let confirmed = is_onex_chain chain_id chains in
    let rec : DepositRecord = record {
      id = stamp.new_id;
      chain_id = chain_id;
      token_id = token_id;
      amount = amount;
      tx_hash = tx_hash;
      status = if confirmed then "confirmed" else "pending";
      created_at = stamp.now;
    } in
    let paid = if confirmed then add_balance (token_key chain_id token_id) amount p else p in
    (rec, complete_task "deposit" (record paid { deposits = rec ∷ paid.deposits }))

-- `RecordDeposit`
unfoldable pub record_deposit :
    Stamp
    → List ChainInfo
    → String
    → String
    → String
    → String
    → Portfolio
    → Result BridgeError DepositRecord × Portfolio
record_deposit stamp chains chain_id token_id amount tx_hash p = elim (parse_amount amount) [
  | err e ↦ (err bad_amount, p)
  | ok n ↦ let (rec, p') = deposit_amount stamp chains chain_id token_id n tx_hash p in (ok rec, p')
]
