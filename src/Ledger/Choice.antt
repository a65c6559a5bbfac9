-- ===== src/Ledger/Choice.antt =====
-- Which account pickAccount of internal/ledger/book.go takes.
use shiva_blockchain.Base.{
  String, ◌≡◌, refl, sym, ap, ◌∙◌, ◌⊎◌, inl, inr, true, false, List, [], ◌∷◌, arith, str_eq, eq_iff,
  Bool-cases, ok,
}
use shiva_blockchain.Strings.{trim_space, to_upper}
use mathlib.Core.Path.{subst}
use shiva_blockchain.Ledger.Store.{BookStore, list_accounts, pick_account, best_account, better_of}
use shiva_blockchain.Ledger.{BookAccount}
use shiva_blockchain.Ledger.Float.{Float64, IsOrdered}
use shiva_blockchain.Ledger.Convert.{parse_human, nought}

abbrev pub In : BookAccount → List BookAccount → Type 0
In a [] = ⊥
In a (x ∷ l) = (a ≡ x) ⊎ In a l

module _ {F : Type 0} (d : Float64 F) (asset : String) where
  open d use {less, at_most}

  -- No account of the asset has a higher balance.
  abbrev pub NoneAbove : F → List BookAccount → Type 0
  NoneAbove m [] = Unit
  NoneAbove m (a ∷ l) =
      ((str_eq (to_upper a.asset) asset ≡ true) → less m (parse_human d a.balance) ≡ false)
      × NoneAbove m l

  -- Where the best so far comes from.
  abbrev pub IsTaken : List BookAccount → String × F → Type 0
  IsTaken l best =
      (a : BookAccount) × In a l
      × (str_eq (to_upper a.asset) asset ≡ true)
      × (best ≡ (a.id, parse_human d a.balance))

  -- A round keeps the best or takes the account, by the comparison.
  better_of-cases :
      (a : BookAccount) (best : String × F)
      → ((better_of d asset a best ≡ best)
          × ((str_eq (to_upper a.asset) asset ≡ true)
              → less best.1 (parse_human d a.balance) ≡ false))
        ⊎ ((better_of d asset a best ≡ (a.id, parse_human d a.balance))
            × (str_eq (to_upper a.asset) asset ≡ true)
            × (less best.1 (parse_human d a.balance) ≡ true))
  unfolding better_of
  better_of-cases a best = elim (Bool-cases (str_eq (to_upper a.asset) asset)) [
    | inr other ↦ inl (rw other, λ same. cc (same, other))
    | inl same ↦ elim (Bool-cases (less best.1 (parse_human d a.balance))) [
      | inl more ↦ inr (ground (arith, same, more), same, more)
      | inr less_or ↦ inl (ground (arith, same, less_or), λ _. less_or)
    ]
  ]

  best_account-source :
      (l : List BookAccount) (best : String × F)
      → (best_account d asset l best ≡ best) ⊎ IsTaken l (best_account d asset l best)
  unfolding best_account
  best_account-source [] best = inl refl
  best_account-source (a ∷ l) best = elim (best_account-source l (better_of d asset a best)) [
    | inr (x, later, same, e) ↦ inr (x, inr later, same, e)
    | inl e ↦ elim (better_of-cases a best) [
      | inl (kept, _) ↦ inl (e ∙ kept)
      | inr (taken, same, _) ↦ inr (a, inl refl, same, e ∙ taken)
    ]
  ]

  better_of-number :
      (o : IsOrdered d) (a : BookAccount) (best : String × F)
      → at_most best.1 best.1 ≡ true
      → at_most (better_of d asset a best).1 (better_of d asset a best).1 ≡ true
  better_of-number o a best h = elim (better_of-cases a best) [
    | inl (kept, _) ↦ rw kept h
    | inr (taken, _, more) ↦ rw taken (o.number_of_less best.1 (parse_human d a.balance) more)
  ]

  best_account-NoneAbove :
      (o : IsOrdered d) (l : List BookAccount) (best : String × F)
      → at_most best.1 best.1 ≡ true
      → (less (best_account d asset l best).1 best.1 ≡ false)
        × NoneAbove (best_account d asset l best).1 l
  unfolding best_account
  best_account-NoneAbove o [] best h = (o.less_irrefl best.1, tt)
  best_account-NoneAbove o (a ∷ l) best h =
      let next = better_of d asset a best in
      let r = best_account d asset l next in
      let x = parse_human d a.balance in
      let ih = best_account-NoneAbove o l next (better_of-number o a best h) in
      elim (better_of-cases a best) [
        | inl (kept, lower) ↦
            let below : less r.1 best.1 ≡ false =
              ap (λ (p : String × F). less r.1 p.1) (sym kept) ∙ ih.0 in
            (below, (λ same. ground (arith, o.less_cotrans r.1 best.1 x, lower same), ih.1))
        | inr (taken, same, more) ↦
            let below : less r.1 x ≡ false =
              ap (λ (p : String × F). less r.1 p.1) (sym taken) ∙ ih.0 in
            (ground (arith, o.less_trans r.1 best.1 x), (λ _. below, ih.1))
      ]

-- The account that is chosen when none is named holds the asset, is one of those that
-- `ListAccounts` gives, and none of these that holds the asset has a higher balance.
pub pick_account_best :
    {F : Type 0} (d : Float64 F) (text : String) (s : BookStore) {id : String}
    {listed : List BookAccount}
    → IsOrdered d
    → (list_accounts d s).0 ≡ ok listed
    → (pick_account d text s).0 ≡ ok id
    → (a : BookAccount) × In a listed
      × (a.id ≡ id)
      × (str_eq (to_upper a.asset) (to_upper (trim_space text)) ≡ true)
      × NoneAbove d (to_upper (trim_space text)) (parse_human d a.balance) listed
unfolding pick_account
pick_account_best {F} d text s {id} {listed} o lists picks =
    let asset = to_upper (trim_space text) in
    let best = best_account d asset listed ("", nought d) in
    let quote : (best.0 ≡ id) × (str_eq best.0 "" ≡ false) = ground (arith, lists, picks) in
    let top = (best_account-NoneAbove d asset o listed ("", nought d) o.nought_number).1 in
    elim (best_account-source d asset listed ("", nought d)) [
      | inl e ↦
          let blank : best.0 ≡ "" = ap (λ (p : String × F). p.0) e in
          absurd (ground (arith, quote.1, eq_iff best.0 ""))
      | inr (a, held, same, e) ↦ (
        a,
        held,
        sym (ap (λ (p : String × F). p.0) e) ∙ quote.0,
        same,
        subst (λ m. NoneAbove d asset m listed) (ap (λ (p : String × F). p.1) e) top,
      )
    ]
