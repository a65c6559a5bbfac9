-- ===== src/Mempool.antt =====
-- internal/mempool/mempool.go: the transactions that wait for a block, in the order of arrival.
pub mod Order
use shiva_blockchain.Base.{
  ℕ, zero, suc, ◌+◌, ◌-◌, ◌*◌, ◌/◌, ◌%◌, ◌^◌, ◌≤◌, ◌<◌, String, ◌≡◌, refl, sym, ap, ◌∙◌, ◌≢◌, ◌↔◌,
  ◌⊎◌, inl, inr, Bool, true, false, not, ◌&&◌, ◌||◌, Option, none, some, List, [], ◌∷◌, ◌++◌, map,
  foldl, arith, str_eq, eq_iff, eq_refl, ltb, leb, ◌==◌, if◌then◌else◌, ltb→lt, lt→ltb, leb→le,
  ==_iff, tests, Bool-cases, Option-cases, length, take, length-append, length-take-le, u64_mod,
  add64, sub64, mul64, add64-eq-add, sub64-eq-sub, add64-lt, word_laws, Result, ok, err, ◌>>=◌,
  ◌>>◌, fail_if, or_fail, map_err, Result-cases, Bytes, codes, has_prefix, decimal, decimal_string,
  str_append,
}
use shiva_blockchain.Base.Int.{ℤ, pos, negsuc}
use shiva_blockchain.Assoc.{Assoc, lookup, insert, erase, keys, get_or}
use shiva_blockchain.Types.{Transaction}

pub record Pool : Type 0 where
  pub txs : Assoc Transaction
  pub keys : List String

-- `New`
abbrev pub new_pool : Pool
new_pool = record { txs = []; keys = [] }

-- `txKey`: "%s:%d"
unfoldable pub tx_key : Transaction → String
tx_key tx = str_append tx.from (str_append ":" (decimal_string tx.nonce))

-- `Add`
unfoldable pub add : Transaction → Pool → Pool
add tx p = elim (lookup (tx_key tx) p.txs) [
  | some old ↦ p
  | none ↦ record { txs = insert (tx_key tx) tx p.txs; keys = p.keys ++ (tx_key tx ∷ []) }
]

abbrev pub zero_tx : Transaction
zero_tx = record { from = ""; to = ""; amount = 0; fee = 0; nonce = 0; signature = "" }

-- `p.txs[key]` for the first `n` keys.
unfoldable pub fetch : Assoc Transaction → ℕ → List String → List Transaction
fetch txs zero l = []
fetch txs (suc n) [] = []
fetch txs (suc n) (k ∷ l) = get_or zero_tx k txs ∷ fetch txs n l

-- The bound of `Pending`: all of them, if `max` is not positive or too large.
unfoldable pub pending_bound : ℤ → ℕ → ℕ
pending_bound (pos n) len = if n == 0 || ltb len n then len else n
pending_bound (negsuc n) len = len

-- `Pending`
unfoldable pub pending : ℤ → Pool → List Transaction
pending max p = fetch p.txs (pending_bound max (length p.keys)) p.keys

-- The deletions of `RemoveIncluded`.
unfoldable pub remove_keys : List Transaction → Assoc Transaction → Assoc Transaction
remove_keys [] m = m
remove_keys (tx ∷ txs) m = remove_keys txs (erase (tx_key tx) m)

-- `RemoveIncluded`. Go visits a map in an order of its own: `order` arranges the keys.
unfoldable pub remove_included : (List String → List String) → List Transaction → Pool → Pool
remove_included order txs p =
    let rest = remove_keys txs p.txs in record { txs = rest; keys = order (keys rest) }

-- `Len`
unfoldable pub len : Pool → ℕ
len p = length (keys p.txs)
