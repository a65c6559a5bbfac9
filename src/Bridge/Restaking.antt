-- ===== src/Bridge/Restaking.antt =====
-- Stakes of ONEX over several calls (internal/bridge/staking.go), each of which loads the portfolio
-- (`GetPortfolio` of internal/bridge/defi.go).
use shiva_blockchain.Base.{
  ℕ, zero, suc, ◌+◌, ◌*◌, ◌≤◌, String, ◌≡◌, ap, ◌∙◌, false, some, List, [], ◌∷◌, arith, str_eq,
  eq_refl, if◌then◌else◌, Result, ok,
}
use shiva_blockchain.Rpc.Amount.{parse_amount}
use shiva_blockchain.Bridge.Registry.{token_key}
use shiva_blockchain.Bridge.Portfolio.{
  Portfolio, StakeRecord, Surroundings, Stamp, BridgeError, onex_key, get_balance, get_portfolio,
  set_balance, add_balance, sub_balance,
}
use shiva_blockchain.Bridge.Tasks.{complete_task}
use shiva_blockchain.Bridge.Staking.{
  StakePool, find_stake_pool, minimum, stake_record, stake, stake_amount,
}
use shiva_blockchain.Bridge.Reloading.{reload_resets_onex, stakes-get_portfolio}

-- What the active stakes hold together.
unfoldable pub staked : List StakeRecord → ℕ
staked [] = 0
staked (s ∷ l) = (if str_eq s.status "active" then s.amount else 0) + staked l

stakes-complete_task : (id : String) (p : Portfolio) → (complete_task id p).stakes ≡ p.stakes
unfolding complete_task add_balance set_balance
stakes-complete_task id p = ground arith

module _ (env : Surroundings) (addr pool_id text : String) (pools : List StakePool)
    (stamp : Stamp) where
  -- A request to stake, on the portfolio as it is loaded from what is stored.
  unfoldable pub request : Portfolio → Result BridgeError StakeRecord × Portfolio
  request p = stake stamp pools pool_id text (get_portfolio env addr (some p))

  -- What is stored after `n` requests.
  unfoldable pub after : ℕ → Portfolio → Portfolio
  unfolding request
  after zero p = p
  after (suc n) p = after n (request p).1

  module _ (pool : StakePool) (bal amt : ℕ) (demo : env.production ≡ false)
      (answer : env.node_balance ≡ some bal) (chosen : find_stake_pool pool_id pools ≡ some pool)
      (native : token_key pool.chain_id pool.stake_token ≡ onex_key)
      (read : parse_amount text ≡ ok amt) (enough : minimum pool ≤ amt) (covered : amt ≤ bal) where
    stake_amount-ok :
        (q : Portfolio)
        → get_balance onex_key q ≡ bal
        → ((stake_amount stamp pool amt q).0 ≡ ok (stake_record stamp pool amt))
          × (staked (stake_amount stamp pool amt q).1.stakes ≡ amt + staked q.stakes)
    unfolding stake_amount stake_record sub_balance add_balance set_balance staked
    stake_amount-ok q held =
        let rec = stake_record stamp pool amt in
        let p' = (sub_balance rec.stake_key amt q).1 in
        let paid = add_balance rec.receipt_key rec.receipt_amt p' in
        ground (
          arith,
          held,
          native,
          enough,
          covered,
          stakes-complete_task "first-stake" (record paid { stakes = rec ∷ paid.stakes }),
        )

    request-ok :
        (p : Portfolio)
        → ((request p).0 ≡ ok (stake_record stamp pool amt))
          × (staked (request p).1.stakes ≡ amt + staked p.stakes)
    unfolding request stake
    request-ok p =
        let q = get_portfolio env addr (some p) in
        let held : get_balance onex_key q ≡ bal =
          ground
            (arith, reload_resets_onex env addr onex_key p bal demo answer, eq_refl onex_key) in
        let done = stake_amount-ok q held in
        rw (chosen, read, stake)
          (done.0, done.1 ∙ ap (λ l. amt + staked l) (stakes-get_portfolio env addr p))

    -- The bridge never uses ONEX up: outside of production, while the node answers with a balance of
    -- the wallet that covers the amount of one stake, any number of requests to stake that amount of
    -- ONEX, at least the pool's minimum, one after the other, leads to a portfolio whose active
    -- stakes have grown by the amount for every request, and whose next request succeeds too.
    pub stakes_never_run_out :
        (n : ℕ) (p : Portfolio)
        → ((request (after n p)).0 ≡ ok (stake_record stamp pool amt))
          × (staked (after n p).stakes ≡ staked p.stakes + n * amt)
    unfolding after
    stakes_never_run_out zero p = ((request-ok p).0, omega arith)
    stakes_never_run_out (suc n) p =
        let rest = stakes_never_run_out n (request p).1 in
        (rest.0, omega (arith, rest.1, (request-ok p).1))
