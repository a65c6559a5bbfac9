-- ===== src/Ledger/Production.antt =====
-- The entries that `Read` of internal/ledger/engine.go gives in production.
use shiva_blockchain.Base.{
  ℕ, ◌+◌, String, ◌≡◌, refl, sym, ap, ◌∙◌, inl, inr, Bool, true, false, not, ◌&&◌, List, [], ◌∷◌,
  ◌++◌, arith, str_eq, if◌then◌else◌, Bool-cases,
}
use shiva_blockchain.Base.Int.{ℤ}
use mathlib.Core.Path.{subst}
use shiva_blockchain.Strings.{trim_space, to_upper}
use shiva_blockchain.Assoc.{Assoc}
use shiva_blockchain.Ledger.Float.{Float64}
use shiva_blockchain.Ledger.Reading.{import_entries, import_entry, ImportRow}
use shiva_blockchain.Ledger.{Entry, Snapshot}
use shiva_blockchain.Ledger.Convert.{
  value_entry, summarize, is_fiat, add_entries, add_entry, empty_snapshot,
}
use shiva_blockchain.Ledger.Engine.{
  value_entries, all_entries, read, onex_entry, ReadInput, production, holder_of, wants,
  portfolio_entries,
}

module _ {F : Type 0} (d : Float64 F) where
  -- No entry is marked as simulated.
  abbrev pub NoneSimulated : List (Entry F) → Type 0
  NoneSimulated [] = Unit
  NoneSimulated (e ∷ l) = (str_eq e.mode "simulated" ≡ false) × NoneSimulated l

  NoneSimulated-append :
      (l m : List (Entry F)) → NoneSimulated l → NoneSimulated m → NoneSimulated (l ++ m)
  NoneSimulated-append [] m h k = k
  NoneSimulated-append (e ∷ l) m (a, h) k = (a, NoneSimulated-append l m h k)

  NoneSimulated-either :
      (b : Bool) (l m : List (Entry F))
      → NoneSimulated l
      → NoneSimulated m
      → NoneSimulated (if b then l else m)
  NoneSimulated-either true l m h k = h
  NoneSimulated-either false l m h k = k

  import_entries-NoneSimulated :
      (now : ℤ) (i : ℕ) (l : List ImportRow) → NoneSimulated (import_entries d now i l)
  unfolding import_entries import_entry
  import_entries-NoneSimulated now i [] = tt
  import_entries-NoneSimulated now i (row ∷ l) =
      let rest = import_entries-NoneSimulated now (i + 1) l in
      let asset = to_upper (trim_space row.asset) in
      let plain : str_eq (if is_fiat d asset then "fiat" else "real") "simulated" ≡ false =
        elim (Bool-cases (is_fiat d asset)) [ inl e ↦ rw e refl | inr e ↦ rw e refl ] in
      NoneSimulated-either (str_eq asset "") (import_entries d now (i + 1) l)
        (import_entry d now i row ∷ import_entries d now (i + 1) l) rest (plain, rest)

  mode-value_entry : (e : Entry F) (prices : Assoc F) → (value_entry d e prices).mode ≡ e.mode
  unfolding value_entry
  mode-value_entry e prices = ground arith

  value_entries-NoneSimulated :
      (fiat : String) (prices : Assoc F) (l : List (Entry F))
      → NoneSimulated l
      → NoneSimulated (value_entries d fiat prices l)
  unfolding value_entries
  value_entries-NoneSimulated fiat prices [] h = tt
  value_entries-NoneSimulated fiat prices (e ∷ l) (a, h) = (
    ap (λ m. str_eq m "simulated") (mode-value_entry (record e { fiat_currency = fiat }) prices)
        ∙ a,
    value_entries-NoneSimulated fiat prices l h,
  )

  entries-add_entries :
      (l : List (Entry F)) (s : Snapshot F) → (add_entries d l s).entries ≡ s.entries
  unfolding add_entries
  entries-add_entries [] s = refl
  entries-add_entries (e ∷ l) s = entries-add_entries l (add_entry d e s) ∙ refl

  all_entries-NoneSimulated :
      (now : ℤ) (input : ReadInput F)
      → production input.mode ≡ true
      → NoneSimulated input.bank
      → ((holder : String) → NoneSimulated (input.evm holder))
      → NoneSimulated (all_entries d now input)
  unfolding all_entries onex_entry
  all_entries-NoneSimulated now input live bank evm =
      let holder = holder_of d input in
      let has_onex = not (str_eq input.onex_atomic "") && not (str_eq input.onex_atomic "0") in
      let from_portfolio : List (Entry F) =
        if wants d input "portfolio" && not (production input.mode)
        then portfolio_entries d now input input.portfolio
        else [] in
      let no_portfolio : NoneSimulated from_portfolio =
        rw live
          (elim (Bool-cases (wants d input "portfolio")) [ inl e ↦ rw e tt | inr e ↦ rw e tt ]) in
      NoneSimulated-append _ _ (NoneSimulated-either (wants d input "bank") input.bank [] bank tt) (
        NoneSimulated-append _ _
          (NoneSimulated-either (wants d input "onex" && has_onex) (onex_entry d now input ∷ []) []
            (refl, tt) tt)
          (NoneSimulated-append _ _
            (NoneSimulated-either (wants d input "evm" && not (str_eq holder "")) (input.evm holder)
              [] (evm holder) tt)
            (NoneSimulated-append _ _ no_portfolio (
              NoneSimulated-either (wants d input "import") (import_entries d now 0 input.imports)
                [] (import_entries-NoneSimulated now 0 input.imports) tt))))

  -- In production, whatever the request asks for, no entry of the ledger that is read is one of the
  -- simulated portfolio, if none that the banks and the other chains report is.
  pub read-NoneSimulated :
      (now : ℤ) (input : ReadInput F)
      → production input.mode ≡ true
      → NoneSimulated input.bank
      → ((holder : String) → NoneSimulated (input.evm holder))
      → NoneSimulated (read d now input).entries
  unfolding read summarize
  read-NoneSimulated now input live bank evm =
      let currency = to_upper (trim_space input.fiat_currency) in
      let fiat = if str_eq currency "" then "USD" else currency in
      let label = if str_eq input.mode "" then "production" else input.mode in
      let entries = value_entries d fiat input.prices (all_entries d now input) in
      subst NoneSimulated (sym (entries-add_entries entries (empty_snapshot d entries label))) (
        value_entries-NoneSimulated fiat input.prices (all_entries d now input)
          (all_entries-NoneSimulated now input live bank evm))
