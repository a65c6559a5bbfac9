-- ===== src/State/Ledger.antt =====
-- internal/chain/state.go against an abstract ledger: accounts as a function, transfers as sums.
use shiva_blockchain.Base.{
  ℕ, ◌+◌, ◌-◌, ◌%◌, ◌<◌, String, ◌≡◌, refl, sym, ap, ◌∙◌, inl, inr, Bool, not, ◌&&◌, Option, none,
  some, List, [], ◌∷◌, arith, str_eq, eq_iff, ltb, ◌==◌, if◌then◌else◌, Bool-cases, Option-cases,
  u64_mod, add64, sub64, Result, ok, err, ◌>>=◌, Result-cases,
}
use mathlib.Core.Path.{fun_ext}
use shiva_blockchain.Crypto.{Primitives, verify_tx, tx_payload}
use shiva_blockchain.Types.{ChainState, AccountState, Transaction}
use shiva_blockchain.State.{
  pay_fee, TxError, insufficient_balance, invalid_nonce, invalid_signature, account, credit, debit,
  check_transaction, apply_transaction, apply_transactions,
}
use shiva_blockchain.State.Accounts.{account-credit, account-debit}

-- The accounts, with no order and no stored entries.
abbrev pub Ledger : Type 0
Ledger = String → AccountState

abbrev pub IsSized : Ledger → Type 0
IsSized l = (a : String) → (l a).balance < u64_mod

abbrev pub when : Bool → ℕ → ℕ
when b n = if b then n else 0

-- What a transaction brings to an account, as receiver and as miner, and what it takes from it.
pub incoming : Transaction → String → String → ℕ
incoming tx miner a =
    when (str_eq tx.to a) tx.amount + when (str_eq miner a && not (str_eq miner "")) tx.fee

pub outgoing : Transaction → String → ℕ
outgoing tx a = when (str_eq tx.from a) (add64 tx.amount tx.fee)

-- Every account at once: old balance, plus what comes in, minus what goes out, modulo 2 ^ 64.
unfoldable pub transferred : Transaction → String → Ledger → Ledger
unfolding incoming outgoing add64
transferred tx miner l a = record {
  balance = ((l a).balance + incoming tx miner a + u64_mod - outgoing tx a) % u64_mod;
  nonce = if str_eq tx.from a then add64 (l a).nonce 1 else (l a).nonce;
}

unfoldable pub minted : Transaction → Ledger → Ledger
minted tx l a = record (l a) {
  balance = ((l a).balance + when (str_eq tx.to a) tx.amount) % u64_mod;
}

-- Why a ledger refuses a transfer.
unfoldable pub refusal : Primitives → Ledger → Transaction → Option TxError
refusal c l tx =
    if ltb (l tx.from).balance (add64 tx.amount tx.fee)
    then some insufficient_balance
    else if not ((l tx.from).nonce == tx.nonce)
    then some invalid_nonce
    else if verify_tx c tx.from (tx_payload tx) tx.signature
    then none
    else some invalid_signature

unfoldable pub post : Primitives → Ledger → Transaction → String → Result TxError Ledger
post c l tx miner =
    if str_eq tx.from ""
    then ok (minted tx l)
    else elim (refusal c l tx) [ none ↦ ok (transferred tx miner l) | some e ↦ err e ]

unfoldable pub post_all : Primitives → Ledger → List Transaction → String → Result TxError Ledger
post_all c l [] miner = ok l
post_all c l (tx ∷ txs) miner = post c l tx miner >>= λ l'. post_all c l' txs miner

abbrev pub view : Result TxError ChainState → Result TxError Ledger
view r = r >>= λ s. ok (account s)

transferred-IsSized :
    (tx : Transaction) (miner : String) (l : Ledger) → IsSized (transferred tx miner l)
unfolding transferred
transferred-IsSized tx miner l a = omega arith

minted-IsSized : (tx : Transaction) (l : Ledger) → IsSized (minted tx l)
unfolding minted
minted-IsSized tx l a = omega arith

account-pay_fee :
    (s : ChainState) (fee : ℕ) (miner a : String)
    → account (pay_fee fee miner s) a ≡ (
        if ltb 0 fee && (str_eq miner a && not (str_eq miner ""))
        then record (account s a) { balance = add64 (account s a).balance fee }
        else account s a)
unfolding pay_fee
account-pay_fee s fee miner a = ground (arith, account-credit s miner a fee, eq_iff miner a)

account-transfer :
    (s : ChainState) (tx : Transaction) (miner a : String)
    → IsSized (account s)
    → account (pay_fee tx.fee miner (credit tx.to tx.amount (debit tx s))) a
      ≡ transferred tx miner (account s) a
unfolding transferred add64 sub64
account-transfer s tx miner a h =
    let s1 = debit tx s in
    let s2 = credit tx.to tx.amount s1 in
    ground (
      arith,
      account-pay_fee s2 tx.fee miner a,
      account-credit s1 tx.to a tx.amount,
      account-debit s tx a,
      eq_iff tx.from a,
      eq_iff tx.to a,
      eq_iff tx.from tx.to,
      h a,
    )

account-mint :
    (s : ChainState) (tx : Transaction) (a : String)
    → IsSized (account s)
    → account (credit tx.to tx.amount s) a ≡ minted tx (account s) a
unfolding minted add64
account-mint s tx a h = ground (arith, account-credit s tx.to a tx.amount, eq_iff tx.to a, h a)

check-refusal :
    (c : Primitives) (s : ChainState) (tx : Transaction)
    → check_transaction c s tx ≡ elim (refusal c (account s) tx) [ none ↦ ok tt | some e ↦ err e ]
unfolding check_transaction refusal
check-refusal c s tx = ground arith

pub apply_transaction-post :
    (c : Primitives) (s : ChainState) (tx : Transaction) (miner : String)
    → IsSized (account s)
    → view (apply_transaction c s tx miner) ≡ post c (account s) tx miner
unfolding apply_transaction post
apply_transaction-post c s tx miner h = elim (Bool-cases (str_eq tx.from "")) [
  | inl mint ↦ rw mint (ap ok (fun_ext (λ a. account-mint s tx a h)))
  | inr transfer ↦
      rw (transfer, check-refusal c s tx)
        (elim (Option-cases (refusal c (account s) tx)) [
          | inl fine ↦ rw fine (ap ok (fun_ext (λ a. account-transfer s tx miner a h)))
          | inr (e, bad) ↦ rw bad
        ])
]

pub post-IsSized :
    (c : Primitives) (l : Ledger) (tx : Transaction) (miner : String) {l' : Ledger}
    → post c l tx miner ≡ ok l'
    → IsSized l'
unfolding post
post-IsSized c l tx miner h a =
    ground (arith, minted-IsSized tx l a, transferred-IsSized tx miner l a)

-- The sequence of transactions.
pub apply_transactions-post_all :
    (c : Primitives) (s : ChainState) (txs : List Transaction) (miner : String)
    → IsSized (account s)
    → view (apply_transactions c s txs miner) ≡ post_all c (account s) txs miner
unfolding apply_transactions post_all
apply_transactions-post_all c s [] miner h = refl
apply_transactions-post_all c s (tx ∷ txs) miner h =
    let one = apply_transaction-post c s tx miner h in
    elim (Result-cases (apply_transaction c s tx miner)) [
      | inr (e, bad) ↦ rw (bad, ← one, bad)
      | inl (s1, fine) ↦
          let posted : post c (account s) tx miner ≡ ok (account s1) = sym one ∙ ap view fine in
          rw (fine, posted)
            (apply_transactions-post_all c s1 txs miner
              (post-IsSized c (account s) tx miner posted))
    ]

pub post_all-IsSized :
    (c : Primitives) (l : Ledger) (txs : List Transaction) (miner : String) {l' : Ledger}
    → IsSized l
    → post_all c l txs miner ≡ ok l'
    → IsSized l'
unfolding post_all
post_all-IsSized c l [] miner h e = λ a. ground (arith, h a)
post_all-IsSized c l (tx ∷ txs) miner {l'} h e =
    let rest : Result TxError Ledger → Result TxError Ledger =
      λ r. r >>= λ m. post_all c m txs miner in
    elim (Result-cases (post c l tx miner)) [
      | inr (f, bad) ↦ cc (e, ap rest bad)
      | inl (l1, fine) ↦
          post_all-IsSized c l1 txs miner {l' = l'} (post-IsSized c l tx miner fine)
            (sym (ap rest fine) ∙ e)
    ]
