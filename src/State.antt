-- ===== src/State.antt =====
-- internal/chain/state.go: one transaction, the block reward and the state root.
pub mod Supply
pub mod Accounts
pub mod Batch
pub mod Minting
pub mod Ledger
pub mod Order
pub mod Root
use shiva_blockchain.Base.{
  ℕ, zero, suc, ◌+◌, ◌-◌, ◌*◌, ◌/◌, ◌%◌, ◌^◌, ◌≤◌, ◌<◌, String, ◌≡◌, refl, sym, ap, ◌∙◌, ◌≢◌, ◌↔◌,
  ◌⊎◌, inl, inr, Bool, true, false, not, ◌&&◌, ◌||◌, Option, none, some, List, [], ◌∷◌, ◌++◌, map,
  foldl, arith, str_eq, eq_iff, eq_refl, ltb, leb, ◌==◌, if◌then◌else◌, ltb→lt, lt→ltb, leb→le,
  ==_iff, tests, Bool-cases, Option-cases, length, take, length-append, length-take-le, u64_mod,
  add64, sub64, mul64, add64-eq-add, sub64-eq-sub, add64-lt, word_laws, Result, ok, err, ◌>>=◌,
  ◌>>◌, fail_if, or_fail, map_err, Result-cases, Bytes, codes, has_prefix, decimal, decimal_string,
  str_append,
}
use Prim.Native.String.{compare}
use Prim.Native.Nat.{Ordering}
use shiva_blockchain.Assoc.{insert, get_or, keys}
use shiva_blockchain.Types.{Transaction, AccountState, zero_account, ChainState}
use shiva_blockchain.Crypto.{Primitives, hash, tx_payload, verify_tx}

pub data TxError : Type 0 where
  insufficient_balance invalid_nonce invalid_signature : TxError

-- `state[addr]`
abbrev pub account : ChainState → String → AccountState
account s a = get_or zero_account a s

-- `acc := state[addr]; acc.Balance += x; state[addr] = acc`
unfoldable pub credit : String → ℕ → ChainState → ChainState
credit a x s = insert a (record (account s a) { balance = add64 (account s a).balance x }) s

-- The write of the sender: `from.Balance -= tx.Amount + tx.Fee; from.Nonce++`.
unfoldable pub debit : Transaction → ChainState → ChainState
debit tx s =
    insert tx.from
      (record {
        balance = sub64 (account s tx.from).balance (add64 tx.amount tx.fee);
        nonce = add64 (account s tx.from).nonce 1;
      })
      s

-- The fee goes to the miner, if there is one.
unfoldable pub pay_fee : ℕ → String → ChainState → ChainState
pay_fee fee miner s = if ltb 0 fee && not (str_eq miner "") then credit miner fee s else s

-- The checks of `ApplyTransaction`, in their order.
unfoldable pub check_transaction : Primitives → ChainState → Transaction → Result TxError (Unit {0})
check_transaction c s tx =
    if ltb (account s tx.from).balance (add64 tx.amount tx.fee)
    then err insufficient_balance
    else if not ((account s tx.from).nonce == tx.nonce)
    then err invalid_nonce
    else if not (verify_tx c tx.from (tx_payload tx) tx.signature)
    then err invalid_signature
    else ok tt

-- `ApplyTransaction`. It writes nothing before its last check, so an error carries no state.
unfoldable pub apply_transaction :
    Primitives → ChainState → Transaction → String → Result TxError ChainState
apply_transaction c s tx miner =
    if str_eq tx.from ""
    then ok (credit tx.to tx.amount s)
    else check_transaction c s tx >> ok (pay_fee tx.fee miner (credit tx.to tx.amount (debit tx s)))

-- `ApplyBlockReward`
unfoldable pub apply_block_reward : ChainState → String → ℕ → ChainState
apply_block_reward s miner reward =
    if str_eq miner "" || reward == 0 then s else credit miner reward s

-- The loops over `b.Transactions`.
unfoldable pub apply_transactions :
    Primitives → ChainState → List Transaction → String → Result TxError ChainState
apply_transactions c s [] miner = ok s
apply_transactions c s (tx ∷ txs) miner =
    apply_transaction c s tx miner >>= λ s'. apply_transactions c s' txs miner

-- Byte order of strings, which `sort.Strings` uses.
abbrev pub str_le : String → String → Bool
str_le a b = elim (compare a b) [ Ordering.gt ↦ false | _ ↦ true ]

unfoldable pub insert_sorted : String → List String → List String
insert_sorted a [] = a ∷ []
insert_sorted a (b ∷ l) = if str_le a b then a ∷ b ∷ l else b ∷ insert_sorted a l

-- `sort.Strings`
unfoldable pub sort_strings : List String → List String
unfolding insert_sorted
sort_strings [] = []
sort_strings (a ∷ l) = insert_sorted a (sort_strings l)

-- "%s:%d:%d;" for each address.
unfoldable pub root_parts : ChainState → List String → Bytes
root_parts s [] = []
root_parts s (a ∷ l) =
    codes a
    ++ (b':'
        ∷ (decimal (account s a).balance
            ++ (b':' ∷ (decimal (account s a).nonce ++ (b';' ∷ root_parts s l)))))

-- `ComputeStateRoot`
unfoldable pub compute_state_root : Primitives → ChainState → String
compute_state_root c [] = hash c (codes "empty")
compute_state_root c (e ∷ s) = hash c (root_parts (e ∷ s) (sort_strings (keys (e ∷ s))))
