-- ===== src/Rpc/Call.antt =====
-- `call` of internal/rpc/rpc.go: the JSON-RPC methods of a node. What `json.Unmarshal` makes of the
-- parameters is given, as is its reading of a raw transaction.
pub mod Effects
use shiva_blockchain.Base.{
  ℕ, zero, suc, ◌+◌, ◌-◌, ◌*◌, ◌/◌, ◌%◌, ◌^◌, ◌≤◌, ◌<◌, String, ◌≡◌, refl, sym, ap, ◌∙◌, ◌≢◌, ◌↔◌,
  ◌⊎◌, inl, inr, Bool, true, false, not, ◌&&◌, ◌||◌, Option, none, some, List, [], ◌∷◌, ◌++◌, map,
  foldl, arith, str_eq, eq_iff, eq_refl, ltb, leb, ◌==◌, if◌then◌else◌, ltb→lt, lt→ltb, leb→le,
  ==_iff, tests, Bool-cases, Option-cases, length, take, length-append, length-take-le, u64_mod,
  add64, sub64, mul64, add64-eq-add, sub64-eq-sub, add64-lt, word_laws, Result, ok, err, ◌>>=◌,
  ◌>>◌, fail_if, or_fail, map_err, Result-cases, Bytes, codes, has_prefix, decimal, decimal_string,
  str_append,
}
use Prim.Native.Char.{code}
use shiva_blockchain.Types.{Transaction, hex_digit, address_valid}
use shiva_blockchain.Crypto.{Primitives}
use shiva_blockchain.State.{TxError}
use shiva_blockchain.Legacy.{normalize_rpc_method}
use shiva_blockchain.Chain.{balance, nonce_of, network_id}
use shiva_blockchain.Chain.Defs.{Blockchain}
use shiva_blockchain.Node.{Node, submit_tx}
use shiva_blockchain.Strings.{trim_space, to_lower}

-- The parameters as a list of strings, as a transaction, as an object with a transaction in "tx", and
-- how a string is read as a transaction.
pub record Params : Type 0 where
  pub args : Option (List String)
  pub tx : Option Transaction
  pub wrapped : Option Transaction
  pub raw : String → Option Transaction

pub data CallError : Type 0 where
  address_required invalid_address invalid_params raw_required bad_json method_not_found : CallError
  tx_refused : TxError → CallError

pub data Answer : Type 0 where
  text : String → Answer
  number : ℕ → Answer
  account_view : String → ℕ → ℕ → Answer
  -- The hash that stands for an accepted transaction.
  accepted : String → Answer

-- What a method does: it answers from the chain, or hands a transaction to `submitTx`.
pub data Action : Type 0 where
  reply : Result CallError Answer → Action
  send : Transaction → Action

hex_from : ℕ → ℕ → String → String
hex_from zero n acc = str_append (hex_digit n) acc
hex_from (suc fuel) n acc =
    let more = hex_from fuel (n / 16) (str_append (hex_digit (n % 16)) acc) in
    if ltb n 16 then str_append (hex_digit n) acc else more

-- "0x%x"; fuel `n` is more than the number of digits.
unfoldable pub hex_number : ℕ → String
unfolding hex_from
hex_number n = str_append "0x" (hex_from n n "")

-- `strings.TrimPrefix(s, "0x")`
drop_0x : String → String
drop_0x String.[] = ""
drop_0x (String.◌∷◌ ch String.[]) = String.◌∷◌ ch ""
drop_0x (String.◌∷◌ a (String.◌∷◌ b s)) =
    if code a == b'0' && code b == b'x' then s else String.◌∷◌ a (String.◌∷◌ b s)

-- `normalizeAddress`
unfoldable pub normalize_address : String → String
unfolding drop_0x
normalize_address s = to_lower (drop_0x (trim_space s))

-- The first of the strings in the parameters.
first_arg : Params → Option String
first_arg p = elim p.args [ none ↦ none | some l ↦ elim l [ [] ↦ none | a ∷ rest ↦ some a ] ]

is_eth : String → Bool
is_eth method = has_prefix (codes method) (codes "eth_")

-- "onex_getBalance" and "eth_getBalance"
unfoldable pub answer_balance : String → Params → Blockchain → Result CallError Answer
unfolding first_arg is_eth
answer_balance method p bc = or_fail (first_arg p) address_required >>= λ a.
    (let addr = normalize_address a in
      if not (address_valid addr)
      then err invalid_address
      else if is_eth method
      then ok (text (hex_number (balance bc addr)))
      else ok (account_view addr (balance bc addr) (nonce_of bc addr)))

-- "onex_getTransactionCount" and "eth_getTransactionCount"
unfoldable pub answer_count : String → Params → Blockchain → Result CallError Answer
unfolding first_arg is_eth
answer_count method p bc = or_fail (first_arg p) address_required >>= λ a.
    (let n = nonce_of bc (normalize_address a) in
      if is_eth method then ok (text (hex_number n)) else ok (number n))

wrapped_transaction : Params → Action
wrapped_transaction p = elim p.wrapped [ none ↦ reply (err invalid_params) | some tx ↦ send tx ]

-- "onex_sendTransaction" and "eth_sendTransaction"
unfoldable pub read_transaction : Params → Action
unfolding wrapped_transaction
read_transaction p = elim p.tx [
  | none ↦ wrapped_transaction p
  | some tx ↦ if str_eq tx.to "" then wrapped_transaction p else send tx
]

-- "onex_sendRawTransaction"
unfoldable pub read_raw : Params → Action
unfolding first_arg
read_raw p = elim (first_arg p) [
  | none ↦ reply (err raw_required)
  | some s ↦ elim (p.raw s) [ none ↦ reply (err bad_json) | some tx ↦ send tx ]
]

either : String → String → String → Bool
either a b method = str_eq method a || str_eq method b

-- The cases of `call` by the method's present name.
unfoldable pub action : String → Params → Blockchain → Action
unfolding either
action method p bc =
    if str_eq method "onex_chainId"
    then reply (ok (text bc.genesis.chain_id))
    else if either "onex_getNetworkId" "net_version" method
    then reply (ok (text (decimal_string (network_id bc))))
    else if str_eq method "eth_chainId"
    then reply (ok (text (hex_number (network_id bc))))
    else if str_eq method "web3_clientVersion"
    then reply (ok (text "OneX/1.0"))
    else if either "onex_getBalance" "eth_getBalance" method
    then reply (answer_balance method p bc)
    else if either "onex_getTransactionCount" "eth_getTransactionCount" method
    then reply (answer_count method p bc)
    else if either "onex_sendTransaction" "eth_sendTransaction" method
    then read_transaction p
    else if str_eq method "onex_sendRawTransaction"
    then read_raw p
    else reply (err method_not_found)

unfoldable pub perform : Primitives → Action → Node → Result CallError Answer × Node
perform c (reply r) n = (r, n)
perform c (send tx) n =
    let (r, n') = submit_tx c tx n in
    elim r [ ok h ↦ (ok (accepted h), n') | err e ↦ (err (tx_refused e), n') ]

-- `call`
unfoldable pub call : Primitives → String → Params → Node → Result CallError Answer × Node
call c method p n = perform c (action (normalize_rpc_method method) p n.bc) n
