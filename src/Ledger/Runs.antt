-- ===== src/Ledger/Runs.antt =====
-- What holds of the book of internal/ledger/book.go after any calls of its store.
use shiva_blockchain.Base.{
  inl, inr, Option, none, some, List, [], ◌∷◌, arith, str_eq, if◌then◌else◌, Bool-cases,
  Option-cases, length-take-le, Result, ok, ◌>>=◌,
}
use shiva_blockchain.Base.Int.{ℤ}
use shiva_blockchain.Ledger.Store.{BookStore, Saving, load, save, sync_from_snapshot, get_account}
use shiva_blockchain.Ledger.Transfer.{
  transfer, replace_first, after_save, settle_transfer, Settle, settled, TransferResult, result_of,
  move_book, Moment, transfer_loaded, execute_plan, push_transfer, transfer_from, transfer_record,
  sender_after, preview_of,
}
use shiva_blockchain.Assoc.{Assoc, values}
use shiva_blockchain.Ledger.{BookAccount, Snapshot, TransferRecord, LedgerError, ConvertRequest}
use shiva_blockchain.Ledger.Request.{Plan, TransferRequest, resolve_external_raw, plan_transfer}
use shiva_blockchain.Ledger.Float.{Float64}
use shiva_blockchain.Ledger.Active.{
  convert_active, source_account, vault_request, quote_active, completed,
}
use shiva_blockchain.Ledger.Store.{pick_account, list_accounts, with_balance}
use shiva_blockchain.Ledger.Invariant.{
  IsSaving, IsBook, IsStore, move_accounts-IsKeyed, save-IsStore, next-IsStore, after_load-IsStore,
  length-replace_first, either-IsStore, get_account-IsStore, sync_from_snapshot-IsStore,
  load-IsStore,
}
use shiva_blockchain.Strings.{trim_space}

module _ {F : Type 0} (d : Float64 F) where
  settle_transfer-IsStore :
      (w : Saving) (pay : Settle) (plan : Plan d) (rec : TransferRecord) (s : BookStore)
      → IsSaving w
      → IsStore s
      → IsStore (settle_transfer d w pay plan rec s).1
  unfolding settle_transfer
  settle_transfer-IsStore w pay plan rec s k h = elim (Option-cases (pay rec plan.external)) [
    | inl refused ↦ rw (refused, settle_transfer) h
    | inr (ref, paid) ↦
        let rec' = settled d plan ref rec in
        rw (paid, settle_transfer)
          (save-IsStore w
            (record s { book = record s.book { transfers = replace_first rec' s.book.transfers } })
            k
            (record {
              keyed = h.in_memory.keyed;
              bounded =
                  omega (arith, length-replace_first rec' s.book.transfers, h.in_memory.bounded);
            }))
  ]

  after_save-IsStore :
      (w : Saving) (settle : Option Settle) (req : TransferRequest) (plan : Plan d)
      (rec : TransferRecord) (s : BookStore)
      → IsSaving w
      → IsStore s
      → IsStore (after_save d w settle req plan rec s).1
  unfolding after_save
  after_save-IsStore w settle req plan rec s k h =
      elim (Bool-cases (str_eq (resolve_external_raw req) "")) [
        | inl inside ↦ rw (inside, after_save) h
        | inr outside ↦ rw (outside, after_save) (paid settle)
      ]
    where
      paid :
          (o : Option Settle)
          → IsStore
              (elim o as (λ _. Result LedgerError (TransferResult F) × BookStore) [
                | none ↦ (ok (result_of d plan rec), s)
                | some pay ↦ settle_transfer d w pay plan rec s
              ]).1
      paid none = h
      paid (some pay) = settle_transfer-IsStore w pay plan rec s k h

  move_book-IsBook :
      (now : ℤ) (from : BookAccount) (plan : Plan d) (rec : TransferRecord) (s : BookStore)
      → IsBook s.book
      → IsBook (move_book d now from plan rec s).book
  unfolding move_book push_transfer
  move_book-IsBook now from plan rec s h = record {
    keyed = move_accounts-IsKeyed d now from plan s.book.accounts h.keyed;
    bounded = length-take-le 500 (rec ∷ s.book.transfers);
  }

  module _ (w w' : Saving) (moment : Moment) (settle : Option Settle) (k : IsSaving w)
      (k' : IsSaving w') where
    execute_plan-IsStore :
        (req : TransferRequest) (from : BookAccount) (plan : Plan d) (s : BookStore)
        → IsStore s
        → IsStore (execute_plan d w w' moment settle req from plan s).1
    unfolding execute_plan
    execute_plan-IsStore req from plan s h =
        let status = if str_eq (resolve_external_raw req) "" then "completed" else "pending" in
        let rec =
          transfer_record d moment.new_id status moment.now (sender_after d from plan) req plan in
        let moved = move_book d moment.now from plan rec s in
        let kept : IsStore (save w moved).1 =
          save-IsStore w moved k (move_book-IsBook moment.now from plan rec s h.in_memory) in
        next-IsStore (save w moved) (λ _. after_save d w' settle req plan rec) kept
          (λ _ t v. after_save-IsStore w' settle req plan rec t k' v)

    transfer_from-IsStore :
        (prices : Assoc F) (req : TransferRequest) (from : BookAccount) (s : BookStore)
        → IsStore s
        → IsStore (transfer_from d w w' moment settle prices req from s).1
    unfolding transfer_from
    transfer_from-IsStore prices req from s h =
        next-IsStore (plan_transfer d from req prices, s)
          (λ plan t.
            if req.preview
            then (ok (preview_of d moment from req plan), t)
            else execute_plan d w w' moment settle req from plan t)
          h
          (λ plan t v.
            either-IsStore req.preview (ok (preview_of d moment from req plan), t)
              (execute_plan d w w' moment settle req from plan t) v
              (execute_plan-IsStore req from plan t v))

    pub transfer-IsStore :
        (prices : Assoc F) (req : TransferRequest) (s : BookStore)
        → IsStore s
        → IsStore (transfer d w w' moment settle prices req s).1
    unfolding transfer transfer_loaded
    transfer-IsStore prices req s h =
        after_load-IsStore (transfer_loaded d w w' moment settle prices req) s h λ t v.
          next-IsStore (get_account req.from_account t)
            (λ from u. transfer_from d w w' moment settle prices req from u)
            (get_account-IsStore req.from_account t v)
            (λ from u z. transfer_from-IsStore prices req from u z)

  source_account-IsStore :
      (req : ConvertRequest) (s : BookStore) → IsStore s → IsStore (source_account d req s).1
  unfolding source_account pick_account list_accounts
  source_account-IsStore req s h =
      either-IsStore (str_eq (trim_space req.from_account) "") (pick_account d req.from_asset s)
        (ok (trim_space req.from_account), s)
        (after_load-IsStore (λ t. (ok (with_balance d (values t.book.accounts)), t)) s h (λ t v. v))
        h

  convert_active-IsStore :
      (w : Saving) (moment : Moment) (prices : Assoc F) (req : ConvertRequest) (s : BookStore)
      → IsSaving w
      → IsStore s
      → IsStore (convert_active d w moment prices req s).1
  unfolding convert_active
  convert_active-IsStore w moment prices req s k h =
      let source = source_account d req s in
      next-IsStore
        (source.0 >>= λ from_id. quote_active d req prices >>= λ conv. ok (from_id, conv), source.1)
        (λ p t.
          let paid = transfer d w w moment none prices (vault_request d p.0 req) t in
          (paid.0 >>= λ res. ok (completed d p.0 req p.1 res), paid.1))
        (source_account-IsStore req s h)
        (λ p t v. transfer-IsStore w w moment none k k prices (vault_request d p.0 req) t v)

-- A call of the store by its bridge: of `SyncFromSnapshot`, of `Transfer`, of `ConvertActive`, or one
-- that only reads.
pub data Call (F : Type 0) : Type 0 where
  synchronise : Saving → ℤ → Snapshot F → Call F
  pay : Saving → Saving → Moment → Option Settle → Assoc F → TransferRequest → Call F
  convert : Saving → Moment → Assoc F → ConvertRequest → Call F
  look : Call F

abbrev pub IsCall : {F : Type 0} → Call F → Type 0
IsCall (synchronise w now snap) = IsSaving w
IsCall (pay w w' moment settle prices req) = IsSaving w × IsSaving w'
IsCall (convert w moment prices req) = IsSaving w
IsCall look = Unit

abbrev pub AllCalls : {F : Type 0} → List (Call F) → Type 0
AllCalls [] = Unit
AllCalls (x ∷ l) = IsCall x × AllCalls l

module _ {F : Type 0} (d : Float64 F) where
  unfoldable pub perform : Call F → BookStore → BookStore
  perform (synchronise w now snap) s = (sync_from_snapshot d w now snap s).1
  perform (pay w w' moment settle prices req) s = (transfer d w w' moment settle prices req s).1
  perform (convert w moment prices req) s = (convert_active d w moment prices req s).1
  perform look s = (load s).1

  unfoldable pub run : List (Call F) → BookStore → BookStore
  unfolding perform
  run [] s = s
  run (x ∷ l) s = run l (perform x s)

  perform-IsStore : (x : Call F) (s : BookStore) → IsCall x → IsStore s → IsStore (perform x s)
  unfolding perform
  perform-IsStore (synchronise w now snap) s k h = sync_from_snapshot-IsStore d w now snap s k h
  perform-IsStore (pay w w' moment settle prices req) s k h =
      transfer-IsStore d w w' moment settle (k.0) (k.1) prices req s h
  perform-IsStore (convert w moment prices req) s k h =
      convert_active-IsStore d w moment prices req s k h
  perform-IsStore look s k h = load-IsStore s h

  -- After any calls of the store, whether or not they fail: each account of the book in memory and of
  -- the one in the file stands under its own identifier, and the history has at most 500 records,
  -- where this holds of the file at the start and of what failed writes leave in it.
  pub run-IsStore :
      (calls : List (Call F)) (s : BookStore) → AllCalls calls → IsStore s → IsStore (run calls s)
  unfolding run
  run-IsStore [] s k h = h
  run-IsStore (x ∷ l) s (k, ks) h = run-IsStore l (perform x s) ks (perform-IsStore x s k h)
