-- ===== src/Tests/Books.antt =====
-- Runs of the ledger book. The numbers are whole ones, and `none` stands for NaN.
use shiva_blockchain.Base.{
  ℕ, ◌+◌, ◌-◌, ◌*◌, ◌/◌, ◌^◌, String, ◌≡◌, refl, ◌≢◌, Bool, true, false, Option, none, some, List,
  [], ◌∷◌, arith, str_eq, eq_iff, ltb, leb, if◌then◌else◌, ok, codes, decimal_string, str_append,
}
use shiva_blockchain.Base.Decimal.Reading.{parse_uint, read_digits}
use shiva_blockchain.Strings.{trim_space, to_upper, trim_right}
use shiva_blockchain.Ledger.Store.{
  BookStore, BookFile, Saving, missing, written, list_accounts, pick_account, reported,
  sync_from_snapshot, best_account,
}
use shiva_blockchain.Ledger.Transfer.{transfer, Moment}
use shiva_blockchain.Assoc.{Assoc, lookup, values}
use shiva_blockchain.Ledger.Payments.{
  balance_at, IsInternal, transfer_nan, transfer_pays, IsCovered,
}
use shiva_blockchain.Ledger.Float.{Float64, IsNan, IsOrdered}
use shiva_blockchain.Ledger.{BookAccount, Book, Entry, Snapshot}
use shiva_blockchain.Ledger.Request.{TransferRequest}
use shiva_blockchain.Ledger.Convert.{parse_human, format_float}
use shiva_blockchain.Base.Int.{pos}
use shiva_blockchain.Ledger.Invariant.{IsStore}
use shiva_blockchain.Ledger.Choice.{In, NoneAbove, pick_account_best}
use shiva_blockchain.Ledger.Syncing.{sync_restores}
use shiva_blockchain.Ledger.Engine.{production, ReadInput, read}
use shiva_blockchain.Ledger.Production.{NoneSimulated, read-NoneSimulated}
use shiva_blockchain.Ledger.Runs.{Call, run, run-IsStore}

abbrev Whole : Type 0
Whole = Option ℕ

abbrev both : (ℕ → ℕ → ℕ) → Whole → Whole → Whole
both f (some a) (some b) = some (f a b)
both f _ _ = none

abbrev on_numbers : (ℕ → ℕ → Bool) → Whole → Whole → Bool
on_numbers f (some a) (some b) = f a b
on_numbers f _ _ = false

abbrev read_whole : String → Whole × Bool
read_whole s = elim (parse_uint (codes s)) [
  | some n ↦ (some n, true)
  | none ↦ if str_eq s "NaN" then (none, true) else (some 0, false)
]

abbrev whole : Float64 Whole
whole = record {
  parse_float = read_whole;
  fixed = λ v. elim v [ none ↦ "NaN" | some n ↦ str_append (decimal_string n) ".000000000000" ];
  is_special = λ v. elim v [ none ↦ true | some n ↦ false ];
  of_uint = some;
  constant = λ n k. some (n / 10 ^ k);
  plus = both ◌+◌;
  minus = both ◌-◌;
  times = both ◌*◌;
  over = both ◌/◌;
  less = on_numbers ltb;
  at_most = on_numbers leb;
}

whole-IsOrdered : IsOrdered whole
whole-IsOrdered = record {
  nought_number = refl;
  less_irrefl = λ x. ground arith;
  number_of_less = λ x y h. ground arith;
  less_trans = λ x y z h k. ground arith;
  less_cotrans = λ x y z n h k. ground arith;
}

none-IsNan : IsNan whole none
none-IsNan = record {
  not_at_most = λ y. refl;
  never_above = λ y. ground arith;
  plus_special = λ y. ground arith;
  minus_special = λ y. ground arith;
}

abbrev account_of : String → String → String → BookAccount
account_of id asset balance = record {
  id = id;
  source = "bank";
  mode = "bank";
  asset = asset;
  token_key = "";
  chain_id = "";
  balance = balance;
  account = "";
  updated_at = pos 1;
}

abbrev savings : BookAccount
savings = account_of "s1" "USD" "100"

abbrev shop : BookAccount
shop = account_of "s2" "USD" "20"

abbrev two_accounts : Book
two_accounts = record { accounts = ("s1", savings) ∷ ("s2", shop) ∷ []; transfers = [] }

abbrev book_store : BookStore
book_store = record { file = BookFile.missing; book = two_accounts }

abbrev pay_of : String → TransferRequest
pay_of amount = record {
  from_account = "s1";
  to_account = "s2";
  amount = amount;
  convert_to = "";
  external_to = "";
  external_chain = "";
  external_bank = "";
  bank_rail = "";
  external_address = "";
  note = "";
  preview = false;
}

abbrev noon : Moment
noon = record { now = pos 7; new_id = "xfer-1" }

pay_of-IsInternal : (amount : String) → IsInternal (pay_of amount)
unfolding trim_space to_upper
pay_of-IsInternal amount = record { carried_out = refl; no_conversion = refl; has_receiver = refl }

forty-IsCovered : IsCovered whole (pay_of "40") savings
unfolding parse_human trim_space parse_uint read_digits
forty-IsCovered = record { more_than_none = refl; not_above = refl }

find_savings : lookup "s1" book_store.book.accounts ≡ some savings
unfolding lookup
find_savings = refl

find_shop : lookup (trim_space "s2") book_store.book.accounts ≡ some shop
unfolding lookup trim_space
find_shop = refl

apart : trim_space "s2" ≢ "s1"
unfolding trim_space
apart e = absurd (ground (arith, e, eq_iff "s2" "s1"))

abbrev paid_book : Assoc BookAccount
paid_book =
    (transfer whole Saving.written Saving.written noon none [] (pay_of "40")
      book_store).1.book.accounts

transfer_pays_example : lookup "s2" paid_book ≡ (
    if str_eq (trim_space "s2") "s2"
    then some (record shop {
      balance = format_float whole (both ◌+◌ (parse_human whole "20") (parse_human whole "40"));
      asset = to_upper (trim_space "USD");
      updated_at = pos 7;
    })
    else if str_eq "s1" "s2"
    then some (record savings {
      balance = format_float whole (both ◌-◌ (parse_human whole "100") (parse_human whole "40"));
      updated_at = pos 7;
    })
    else lookup "s2" book_store.book.accounts)
transfer_pays_example =
    transfer_pays whole Saving.written Saving.written noon none [] (pay_of "40") book_store savings
      shop (pay_of-IsInternal "40") forty-IsCovered find_savings refl find_shop apart "s2"

nan_text : parse_human whole "NaN" ≡ none
unfolding parse_human trim_space parse_uint read_digits
nan_text = refl

abbrev nan_book : Assoc BookAccount
nan_book =
    (transfer whole Saving.written Saving.written noon none [] (pay_of "NaN")
      book_store).1.book.accounts

transfer_nan_example :
    (balance_at "s1" nan_book ≡ some "0") × (balance_at (trim_space "s2") nan_book ≡ some "0")
transfer_nan_example =
    transfer_nan whole Saving.written Saving.written noon none [] (pay_of "NaN") book_store savings
      shop (pay_of-IsInternal "NaN") (rw nan_text none-IsNan) find_savings refl find_shop apart

abbrev report : Entry Whole
report = record {
  id = "s1";
  source = "bank";
  mode = "bank";
  chain_id = "";
  asset = "USD";
  token_key = "";
  atomic = "";
  human = "100";
  fiat_currency = "USD";
  fiat_value = some 0;
  fiat_usd = some 0;
  account = "";
  timestamp = pos 1;
  reference = "";
}

abbrev report_snap : Snapshot Whole
report_snap = record {
  at = pos 1;
  mode = "production";
  entries = report ∷ [];
  total_usd = some 0;
  by_source = [];
  by_fiat = [];
}

report_balance : reported whole report ≡ "100"
unfolding reported trim_space
report_balance = refl

left_over :
    on_numbers ltb (parse_human whole "100") (
      parse_human whole
        (format_float whole (both ◌-◌ (parse_human whole "100") (parse_human whole "40"))))
    ≡ false
unfolding parse_human format_float trim_space parse_uint read_digits trim_right decimal_string
left_over = refl

abbrev synced_book : Assoc BookAccount
synced_book =
    (sync_from_snapshot whole Saving.written (pos 8) report_snap
      (transfer whole Saving.written Saving.written noon none [] (pay_of "40")
        book_store).1).1.book.accounts

sync_restores_example :
    (balance_at "s1" synced_book ≡ some "100")
    × (balance_at (trim_space "s2") synced_book
        ≡ some (format_float whole (both ◌+◌ (parse_human whole "20") (parse_human whole "40"))))
sync_restores_example =
    sync_restores whole Saving.written Saving.written Saving.written noon (pos 8) none []
      (pay_of "40") book_store savings shop report_snap report (pay_of-IsInternal "40")
      forty-IsCovered find_savings refl find_shop apart refl refl refl report_balance refl left_over

abbrev two_calls : List (Call Whole)
two_calls =
    Call.synchronise Saving.written (pos 3) report_snap
    ∷ Call.pay Saving.written Saving.written noon none [] (pay_of "40")
    ∷ []

abbrev new_store : BookStore
new_store = record { file = BookFile.missing; book = record { accounts = []; transfers = [] } }

new_store-IsStore : IsStore new_store
unfolding lookup
new_store-IsStore = record {
  in_memory = record { keyed = λ id a e. absurd (ground (arith, e)); bounded = omega arith };
  on_disk = tt;
}

run-IsStore_example : IsStore (run whole two_calls new_store)
run-IsStore_example = run-IsStore whole two_calls new_store (tt, ((tt, tt), tt)) new_store-IsStore

listed_two : (list_accounts whole book_store).0 ≡ ok (savings ∷ shop ∷ [])
unfolding list_accounts shiva_blockchain.Ledger.Store.load values parse_human trim_space parse_uint
    read_digits
listed_two = refl

picked_savings : (pick_account whole "usd" book_store).0 ≡ ok "s1"
unfolding pick_account list_accounts shiva_blockchain.Ledger.Store.load values parse_human
    trim_space parse_uint read_digits to_upper best_account
picked_savings = refl

pick_account_best_example :
    (a : BookAccount) × In a (savings ∷ shop ∷ [])
    × (a.id ≡ "s1")
    × (str_eq (to_upper a.asset) (to_upper (trim_space "usd")) ≡ true)
    × NoneAbove whole
        (to_upper (trim_space "usd"))
        (parse_human whole a.balance)
        (savings ∷ shop ∷ [])
pick_account_best_example =
    pick_account_best whole "usd" book_store whole-IsOrdered listed_two picked_savings

abbrev everything : ReadInput Whole
everything = record {
  mode = "production";
  fiat_currency = "";
  default_holder = "";
  source = "all";
  wallet_addr = "";
  evm_holder = "";
  onex_atomic = "500";
  portfolio = ("ethereum:USDT", "7") ∷ [];
  tokens = [];
  prices = [];
  bank = report ∷ [];
  evm = λ holder. [];
  imports = [];
}

in_production : production "production" ≡ true
unfolding production
in_production = refl

read-NoneSimulated_example : NoneSimulated whole (read whole (pos 9) everything).entries
read-NoneSimulated_example =
    read-NoneSimulated whole (pos 9) everything in_production (refl, tt) (λ holder. tt)
