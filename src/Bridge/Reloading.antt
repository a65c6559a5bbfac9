-- ===== src/Bridge/Reloading.antt =====
-- Loading of a stored portfolio (internal/bridge/defi.go and real.go).
use shiva_blockchain.Base.{
  ℕ, ◌<◌, String, ◌≡◌, refl, ◌≢◌, inl, inr, true, false, none, some, List, [], arith, str_eq,
  eq_iff, ltb, if◌then◌else◌, Bool-cases, err,
}
use shiva_blockchain.Base.Int.{ℤ, ltb_ℤ}
use shiva_blockchain.Assoc.{lookup, get_or}
use shiva_blockchain.Assoc.Laws.{get_or-insert}
use shiva_blockchain.Bridge.Portfolio.{
  Portfolio, StakeRecord, insufficient_balance, Surroundings, onex_key, get_balance, set_balance,
  sub_balance, sync_onex_balance, sync_real_portfolio, get_portfolio,
}
use shiva_blockchain.Bridge.Staking.{Floats, close_stake, unstake}

-- Outside of production, where the node answers, a stored portfolio is loaded with the node's
-- balance of ONEX, whatever was debited or credited in the bridge before, and with every other
-- balance as it was.
pub reload_resets_onex :
    (env : Surroundings) (addr key : String) (p : Portfolio) (bal : ℕ)
    → env.production ≡ false
    → env.node_balance ≡ some bal
    → get_balance key (get_portfolio env addr (some p))
      ≡ (if str_eq onex_key key then bal else get_balance key p)
unfolding get_portfolio sync_real_portfolio sync_onex_balance get_balance set_balance
reload_resets_onex env addr key p bal mode answer =
    ground (arith, mode, answer, get_or-insert 0 onex_key key bal p.balances)

get_or-nil : (key : String) (z : ℕ) → get_or z key [] ≡ z
unfolding get_or lookup
get_or-nil key z = refl

receipts_dropped :
    (env : Surroundings) (addr key : String) (p : Portfolio)
    → env.production ≡ true
    → env.chain_balances ≡ none
    → key ≢ onex_key
    → get_balance key (get_portfolio env addr (some p)) ≡ 0
unfolding get_portfolio sync_real_portfolio sync_onex_balance get_balance set_balance
receipts_dropped env addr key p mode nothing other =
    let q = sync_onex_balance env p in
    let n = get_balance onex_key q in
    elim (Bool-cases (ltb 0 n)) [
      | inl more ↦ ground (
        arith,
        mode,
        nothing,
        more,
        get_or-nil key 0,
        get_or-insert 0 onex_key key n [],
        eq_iff onex_key key,
      )
      | inr zero_left ↦ ground (arith, mode, nothing, zero_left, get_or-nil key 0)
    ]

sub_balance-short :
    (key : String) (n : ℕ) (p : Portfolio)
    → get_balance key p < n
    → (sub_balance key n p).0 ≡ err insufficient_balance
unfolding sub_balance
sub_balance-short key n p short = ground arith

pub stakes-get_portfolio :
    (env : Surroundings) (addr : String) (p : Portfolio)
    → (get_portfolio env addr (some p)).stakes ≡ p.stakes
unfolding get_portfolio sync_real_portfolio sync_onex_balance set_balance
stakes-get_portfolio env addr p = ground arith

-- In production, where the chains give no balances: `Unstake` of the portfolio as it is loaded
-- fails for want of the receipt, for every stake that is active and unlocked and has a receipt, not
-- of ONEX.
production_unstake_fails :
    (fl : Floats) (apy : StakeRecord → fl.F) (now : ℤ) (env : Surroundings) (addr id : String)
    (p : Portfolio) (s : StakeRecord) (ss : List StakeRecord)
    → env.production ≡ true
    → env.chain_balances ≡ none
    → close_stake id p.stakes ≡ some (s, ss)
    → s.receipt_key ≢ onex_key
    → 0 < s.receipt_amt
    → ltb_ℤ now s.unlock_at ≡ false
    → (unstake fl apy now id (get_portfolio env addr (some p))).0 ≡ err insufficient_balance
unfolding unstake
production_unstake_fails fl apy now env addr id p s ss mode nothing found other some_receipt
      unlocked =
    let none_left = receipts_dropped env addr s.receipt_key p mode nothing other in
    let short =
      sub_balance-short s.receipt_key s.receipt_amt (get_portfolio env addr (some p))
        (omega (arith, none_left, some_receipt)) in
    let still = stakes-get_portfolio env addr p in ground (arith, still, found, short, unlocked)
