-- ===== src/Chain/Refinement.antt =====
-- Blocks of internal/chain/chain.go against the abstract ledger: the transactions in their order,
-- then the reward.
use shiva_blockchain.Base.{
  ℕ, ◌+◌, ◌%◌, String, ◌≡◌, sym, ap, ◌∙◌, inl, inr, not, ◌&&◌, arith, str_eq, eq_iff, ltb, u64_mod,
  add64, Result, ok, ◌>>=◌, map_err, Result-cases,
}
use mathlib.Core.Path.{fun_ext}
use shiva_blockchain.Chain.Defs.{simulate, reward_block, tx_error, ApplyError}
use shiva_blockchain.Crypto.{Primitives}
use shiva_blockchain.Types.{Block, ChainState}
use shiva_blockchain.State.Ledger.{
  Ledger, when, IsSized, post_all, apply_transactions-post_all, view, post_all-IsSized,
}
use shiva_blockchain.State.{apply_block_reward, account, apply_transactions}
use shiva_blockchain.State.Accounts.{account-credit}

-- What a block after genesis pays to an account.
pub reward_for : ℕ → Block → String → ℕ
reward_for reward b a =
    when (ltb 0 b.header.index && (str_eq b.header.miner a && not (str_eq b.header.miner "")))
      reward

unfoldable pub rewarded : ℕ → Block → Ledger → Ledger
unfolding reward_for
rewarded reward b l a = record (l a) { balance = ((l a).balance + reward_for reward b a) % u64_mod }

unfoldable pub post_block : Primitives → ℕ → Ledger → Block → Result ApplyError Ledger
post_block c reward l b = map_err tx_error (post_all c l b.transactions b.header.miner) >>= λ l'.
    ok (rewarded reward b l')

account-reward_block :
    (reward : ℕ) (b : Block) (s : ChainState) (a : String)
    → IsSized (account s)
    → account (reward_block reward b s) a ≡ rewarded reward b (account s) a
unfolding reward_block apply_block_reward rewarded add64
account-reward_block reward b s a h =
    ground (arith, account-credit s b.header.miner a reward, eq_iff b.header.miner a, h a)

-- `applyBlockInternal` computes, on its copy of the state, the accounts that the abstract ledger
-- gives the block, or stops with the same error: where every balance fits a uint64, each account
-- ends with its old balance plus all that it receives minus all that it spends, modulo 2 ^ 64, also
-- where sender, receiver and miner coincide.
pub simulate-post_block :
    (c : Primitives) (reward : ℕ) (s : ChainState) (b : Block)
    → IsSized (account s)
    → (simulate c reward s b >>= λ s'. ok (account s')) ≡ post_block c reward (account s) b
unfolding simulate post_block
simulate-post_block c reward s b h =
    let txs = apply_transactions-post_all c s b.transactions b.header.miner h in
    elim (Result-cases (apply_transactions c s b.transactions b.header.miner)) [
      | inr (e, bad) ↦ rw (bad, ← txs, bad)
      | inl (s1, fine) ↦
          let posted : post_all c (account s) b.transactions b.header.miner ≡ ok (account s1) =
            sym txs ∙ ap view fine in
          let sized = post_all-IsSized c (account s) b.transactions b.header.miner h posted in
          rw (fine, posted) (ap ok (fun_ext (λ a. account-reward_block reward b s1 a sized)))
    ]
