-- ===== src/Ledger/Convert.antt =====
-- internal/ledger/convert.go: prices, conversion of amounts, valuation of entries and their totals;
-- atomicToHumanStr of internal/ledger/evm.go.
use shiva_blockchain.Base.{
  ℕ, zero, suc, ◌+◌, ◌-◌, ◌/◌, ◌%◌, ◌^◌, String, sym, Bool, true, false, not, ◌&&◌, ◌||◌, Option,
  none, some, List, [], ◌∷◌, str_eq, ◌==◌, if◌then◌else◌, Result, ok, ◌>>◌, fail_if, Bytes, codes,
  decimal_string, str_append,
}
use shiva_blockchain.Base.Int.{ℤ, pos, negsuc}
use shiva_blockchain.Base.Decimal.Reading.{read_digits, parse_uint}
use shiva_blockchain.Strings.{trim_space, to_upper, trim_right, len}
use shiva_blockchain.Ledger.Float.{Float64}
use shiva_blockchain.Assoc.{Assoc, lookup, get_or, insert}
use shiva_blockchain.Ledger.{
  ConvertResult, Entry, ConvertRequest, assets_required, invalid_amount, no_price, LedgerError,
  Snapshot,
}

-- `decimalsForSymbol`
unfoldable pub decimals_for_symbol : String → ℕ
decimals_for_symbol sym =
    let s = to_upper sym in
    if str_eq s "ETH" || str_eq s "BNB" || str_eq s "MATIC" || str_eq s "AVAX" || str_eq s "ALL"
    then 18
    else if str_eq s "SOL"
    then 9
    else if str_eq s "TRX" || str_eq s "USDT" || str_eq s "USDC"
    then 6
    else 8

-- `new(big.Int).SetString(s, 10)`
unfoldable pub read_big : Bytes → Option ℤ
read_big [] = none
read_big (ch ∷ l) =
    let unsigned = read_digits 0 l in
    let all = read_digits 0 (ch ∷ l) in
    if ch == b'-' || ch == b'+'
    then elim l [
      | [] ↦ none
      | _ ∷ _ ↦ elim unsigned [
        | none ↦ none
        | some n ↦ some (if ch == b'+' || n == 0 then pos n else negsuc (n - 1))
      ]
    ]
    else elim all [ none ↦ none | some n ↦ some (pos n) ]

-- `n.String()`
unfoldable pub big_string : ℤ → String
big_string (pos n) = decimal_string n
big_string (negsuc n) = str_append "-" (decimal_string (n + 1))

-- `for len(frac) < decimals { frac = "0" + frac }`
unfoldable pub pad_left : ℕ → String → String
pad_left zero s = s
pad_left (suc k) s = str_append "0" (pad_left k s)

-- `Div` and `Mod` of `big.Int`: the remainder is not negative.
unfoldable pub big_div : ℤ → ℕ → ℤ
big_div (pos n) k = pos (n / k)
big_div (negsuc n) k = negsuc (n / k)

unfoldable pub big_mod : ℤ → ℕ → ℕ
big_mod (pos n) k = n % k
big_mod (negsuc n) k = k - 1 - n % k

unfoldable pub human_of_big : ℤ → ℕ → String
unfolding big_string pad_left big_div big_mod
human_of_big n decimals =
    let whole = big_string (big_div n (10 ^ decimals)) in
    let rem = big_mod n (10 ^ decimals) in
    let digits = decimal_string rem in
    let frac = trim_right b'0' (pad_left (decimals - len digits) digits) in
    if decimals == 0
    then big_string n
    else if rem == 0 || str_eq frac ""
    then whole
    else str_append whole (str_append "." frac)

-- `atomicToHumanStr`
unfoldable pub atomic_to_human_str : String → ℕ → String
atomic_to_human_str atomic decimals = elim (read_big (codes (trim_space atomic))) [
  | none ↦ "0"
  | some n ↦ human_of_big n decimals
]

module _ {F : Type 0} (d : Float64 F) where
  open d use {parse_float, fixed, is_special, of_uint, constant, plus, times, over, less, at_most}

  abbrev pub nought : F
  nought = constant 0 0

  -- `parseHuman`
  unfoldable pub parse_human : String → F
  parse_human s = (parse_float (trim_space s)).0

  -- `formatFloat`
  unfoldable pub format_float : F → String
  format_float v =
      let s = trim_right b'.' (trim_right b'0' (fixed v)) in
      if is_special v then "0" else if str_eq s "" || str_eq s "-" then "0" else s

  -- `FiatRates`
  unfoldable pub fiat_rates : Assoc F
  fiat_rates =
      ("USD", constant 1 0)
      ∷ ("EUR", constant 108 2)
      ∷ ("GBP", constant 127 2)
      ∷ ("JPY", constant 67 4)
      ∷ ("CHF", constant 112 2)
      ∷ ("AED", constant 27 2)
      ∷ ("INR", constant 12 3)
      ∷ ("CNY", constant 14 2)
      ∷ ("BRL", constant 20 2)
      ∷ ("NGN", constant 65 5)
      ∷ []

  -- `isFiat`
  unfoldable pub is_fiat : String → Bool
  is_fiat sym = elim (lookup (to_upper sym) fiat_rates) [ none ↦ false | some r ↦ true ]

  unfoldable pub stable_price : String → F
  stable_price asset =
      if str_eq asset "USDT" || str_eq asset "USDC" || str_eq asset "DAI" || str_eq asset "BUSD"
      then constant 1 0
      else nought

  -- `unitUSD`; a map of prices gives its `USD` fields.
  unfoldable pub unit_usd : String → Assoc F → F
  unfolding stable_price
  unit_usd asset prices =
      if is_fiat asset then get_or nought asset fiat_rates else elim (lookup asset prices) [
        | none ↦ stable_price asset
        | some usd ↦ if less nought usd then usd else stable_price asset
      ]

  -- `usdToFiat`
  unfoldable pub usd_to_fiat : F → String → F
  usd_to_fiat usd fiat = elim (lookup fiat fiat_rates) [
    | none ↦ usd
    | some rate ↦ if at_most rate nought then usd else over usd rate
  ]

  abbrev or_usd : String → String
  or_usd fiat = if str_eq fiat "" then "USD" else fiat

  -- The result of `ConvertAmount`, from the amount and both prices.
  unfoldable pub converted : String → String → String → F → F → F → ConvertResult F
  converted from to fiat amt from_usd to_usd = record {
    from_asset = from;
    to_asset = to;
    from_amount = format_float amt;
    to_amount = format_float (over (times amt from_usd) to_usd);
    rate = over from_usd to_usd;
    fiat_currency = fiat;
    fiat_value = usd_to_fiat (times amt from_usd) fiat;
    fiat_usd = times amt from_usd;
    mode = if is_fiat from || is_fiat to then "fiat" else "real";
    from_account = "";
    to_account = "";
    status = "";
    transfer_id = "";
  }

  -- `ConvertAmount`
  unfoldable pub convert_amount : ConvertRequest → Assoc F → Result LedgerError (ConvertResult F)
  unfolding converted
  convert_amount req prices =
      let from = to_upper (trim_space req.from_asset) in
      let to = to_upper (trim_space req.to_asset) in
      let (amt, well_formed) = parse_float (trim_space req.amount) in
      let from_usd = unit_usd from prices in
      let to_usd = unit_usd to prices in
      do
        fail_if (str_eq from "" || str_eq to "") assets_required
        fail_if (not well_formed || less amt nought) invalid_amount
        fail_if (at_most from_usd nought) (no_price from)
        fail_if (at_most to_usd nought) (no_price to)
        ok (
            converted from to (or_usd (to_upper (trim_space req.fiat_currency))) amt from_usd
              to_usd)

  -- `atomicToHuman`
  unfoldable pub atomic_to_human : String → String → F
  atomic_to_human atomic asset = elim (parse_uint (codes (trim_space atomic))) [
    | none ↦ nought
    | some n ↦
        let div = constant (10 ^ decimals_for_symbol asset) 0 in
        if at_most div nought then nought else over (of_uint n) div
  ]

  -- The valuation of an entry with an amount.
  unfoldable pub value_amount : Entry F → F → Assoc F → Entry F
  value_amount e human prices =
      let usd_per = unit_usd (to_upper (trim_space e.asset)) prices in
      let shown = record e { human = format_float human } in
      if at_most usd_per nought then shown else record shown {
        fiat_usd = times human usd_per;
        fiat_value = usd_to_fiat (times human usd_per) e.fiat_currency;
      }

  -- `ValueEntry`
  unfoldable pub value_entry : Entry F → Assoc F → Entry F
  unfolding value_amount
  value_entry e prices =
      let priced = record e { fiat_currency = or_usd (to_upper (trim_space e.fiat_currency)) } in
      let given = parse_human e.human in
      let human =
        if at_most given nought && not (str_eq e.atomic "")
        then atomic_to_human e.atomic e.asset
        else given in
      if at_most human nought then priced else value_amount priced human prices

  -- One round of the loop of `Summarize`.
  unfoldable pub add_entry : Entry F → Snapshot F → Snapshot F
  add_entry e s = record s {
    total_usd = plus s.total_usd e.fiat_usd;
    by_source = insert e.source (plus (get_or nought e.source s.by_source) e.fiat_usd) s.by_source;
    by_fiat =
        if str_eq e.fiat_currency ""
        then s.by_fiat
        else insert e.fiat_currency (plus (get_or nought e.fiat_currency s.by_fiat) e.fiat_value)
            s.by_fiat;
  }

  unfoldable pub add_entries : List (Entry F) → Snapshot F → Snapshot F
  unfolding add_entry
  add_entries [] s = s
  add_entries (e ∷ l) s = add_entries l (add_entry e s)

  unfoldable pub empty_snapshot : List (Entry F) → String → Snapshot F
  empty_snapshot entries mode = record {
    at = pos 0;
    mode = mode;
    entries = entries;
    total_usd = nought;
    by_source = [];
    by_fiat = [];
  }

  -- `Summarize`; the time is set by its caller.
  unfoldable pub summarize : List (Entry F) → String → Snapshot F
  unfolding add_entries empty_snapshot
  summarize entries mode = add_entries entries (empty_snapshot entries mode)
