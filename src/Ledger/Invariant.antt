-- ===== src/Ledger/Invariant.antt =====
-- What holds of the book of internal/ledger/book.go after any calls.
use shiva_blockchain.Base.{
  ◌≤◌, String, ◌≡◌, refl, inl, inr, Bool, true, false, Option, none, some, List, [], ◌∷◌, arith,
  eq_iff, if◌then◌else◌, Option-cases, length, Result, ok, err, or_fail,
}
use shiva_blockchain.Base.Int.{ℤ}
use shiva_blockchain.Assoc.Laws.{lookup-insert}
use shiva_blockchain.Ledger.External.{ExternalDestination}
use shiva_blockchain.Ledger.Store.{
  BookStore, BookFile, Saving, load, save, sync_entry, sync_entries, sync_from_snapshot,
  entry_account, after_load, empty_book, get_account, load_book, sync_loaded,
}
use shiva_blockchain.Ledger.Transfer.{move_accounts, debited, credited, replace_first}
use shiva_blockchain.Assoc.{Assoc, lookup, insert, get_or}
use shiva_blockchain.Ledger.{
  Book, BookAccount, Entry, Snapshot, TransferRecord, LedgerError, account_not_found,
}
use shiva_blockchain.Ledger.Request.{new_account, Plan}
use shiva_blockchain.Ledger.Float.{Float64}

-- Every account stands under its own identifier.
abbrev pub IsKeyed : Assoc BookAccount → Type 0
IsKeyed accounts = (id : String) (a : BookAccount) → lookup id accounts ≡ some a → a.id ≡ id

pub record IsBook (b : Book) : Type 0 where
  pub keyed : IsKeyed b.accounts
  pub bounded : length b.transfers ≤ 500

abbrev pub IsFile : BookFile → Type 0
IsFile BookFile.missing = Unit
IsFile BookFile.unreadable = Unit
IsFile BookFile.malformed = Unit
IsFile (BookFile.holds b) = IsBook b

-- A failed write leaves no other book behind than one of this kind.
abbrev pub IsSaving : Saving → Type 0
IsSaving Saving.written = Unit
IsSaving (Saving.failed f) = IsFile f

pub record IsStore (s : BookStore) : Type 0 where
  pub in_memory : IsBook s.book
  pub on_disk : IsFile s.file

insert-IsKeyed :
    (k : String) (a : BookAccount) (l : Assoc BookAccount)
    → a.id ≡ k
    → IsKeyed l
    → IsKeyed (insert k a l)
insert-IsKeyed k a l same h id b e = ground (arith, lookup-insert k id a l, eq_iff k id, h id b)

pub empty_book-IsBook : IsBook empty_book
unfolding lookup
empty_book-IsBook = record { keyed = λ id a e. ground (arith, e); bounded = omega arith }

load_book-IsStore :
    (l : Assoc BookAccount) (f : BookFile) (s : BookStore)
    → IsFile f
    → IsStore s
    → IsStore (load_book l f s).1
unfolding load_book
load_book-IsStore (x ∷ l) f s k h = h
load_book-IsStore [] BookFile.missing s k h = record {
  in_memory = empty_book-IsBook;
  on_disk = h.on_disk;
}
load_book-IsStore [] BookFile.unreadable s k h = h
load_book-IsStore [] BookFile.malformed s k h = h
load_book-IsStore [] (BookFile.holds b) s k h = record { in_memory = k; on_disk = h.on_disk }

pub load-IsStore : (s : BookStore) → IsStore s → IsStore (load s).1
unfolding load
load-IsStore s h = load_book-IsStore s.book.accounts s.file s h.on_disk h

pub save-IsStore : (w : Saving) (s : BookStore) → IsSaving w → IsBook s.book → IsStore (save w s).1
unfolding save
save-IsStore Saving.written s w h = record { in_memory = h; on_disk = h }
save-IsStore (Saving.failed f) s w h = record { in_memory = h; on_disk = w }

new_account-id :
    (now : ℤ) (to_id asset : String) (ext : Option ExternalDestination)
    → (new_account now to_id asset ext).id ≡ to_id
unfolding new_account
new_account-id now to_id asset none = ground arith
new_account-id now to_id asset (some dest) = ground arith

-- A call, and what follows it where it does not fail.
pub next-IsStore :
    {A B : Type 0} (r : Result LedgerError A × BookStore)
    (body : A → BookStore → Result LedgerError B × BookStore)
    → IsStore r.1
    → ((a : A) (t : BookStore) → IsStore t → IsStore (body a t).1)
    → IsStore
        (elim r.0 as (λ _. Result LedgerError B × BookStore) [
          | ok a ↦ body a r.1
          | err e ↦ (err e, r.1)
        ]).1
next-IsStore (ok a, s) body h keeps = keeps a s h
next-IsStore (err e, s) body h keeps = h

pub after_load-IsStore :
    {A : Type 0} (body : BookStore → Result LedgerError A × BookStore) (s : BookStore)
    → IsStore s
    → ((t : BookStore) → IsStore t → IsStore (body t).1)
    → IsStore (after_load body s).1
after_load-IsStore body s h keeps =
    next-IsStore (load s) (λ _. body) (load-IsStore s h) (λ _. keeps)

pub get_account-IsStore : (id : String) (s : BookStore) → IsStore s → IsStore (get_account id s).1
unfolding get_account
get_account-IsStore id s h =
    after_load-IsStore (λ t. (or_fail (lookup id t.book.accounts) (account_not_found id), t)) s h
      (λ t v. v)

pub either-IsStore :
    {A : Type 0} (b : Bool) (x y : Result LedgerError A × BookStore)
    → IsStore x.1
    → IsStore y.1
    → IsStore (if b then x else y).1
either-IsStore true x y h k = h
either-IsStore false x y h k = k

pub length-replace_first :
    (rec : TransferRecord) (l : List TransferRecord) → length (replace_first rec l) ≡ length l
unfolding replace_first
length-replace_first rec [] = refl
length-replace_first rec (x ∷ l) = refl

get_or-keyed :
    (opened : BookAccount) (id : String) (l : Assoc BookAccount)
    → opened.id ≡ id
    → IsKeyed l
    → (get_or opened id l).id ≡ id
unfolding get_or
get_or-keyed opened id l e h = elim (Option-cases (lookup id l)) [
  | inl gone ↦ rw (gone, get_or) e
  | inr (a, found) ↦ rw (found, get_or) (h id a found)
]

module _ {F : Type 0} (d : Float64 F) where
  sync_entry-IsKeyed :
      (now : ℤ) (e : Entry F) (l : Assoc BookAccount) → IsKeyed l → IsKeyed (sync_entry d now e l)
  unfolding sync_entry entry_account
  sync_entry-IsKeyed now e l h id b =
      ground (arith, insert-IsKeyed e.id (entry_account d now e) l refl h id b, h id b)

  sync_entries-IsKeyed :
      (now : ℤ) (es : List (Entry F)) (l : Assoc BookAccount)
      → IsKeyed l
      → IsKeyed (sync_entries d now es l)
  unfolding sync_entries
  sync_entries-IsKeyed now [] l h = h
  sync_entries-IsKeyed now (e ∷ es) l h =
      sync_entries-IsKeyed now es (sync_entry d now e l) (sync_entry-IsKeyed now e l h)

  pub move_accounts-IsKeyed :
      (now : ℤ) (from : BookAccount) (plan : Plan d) (l : Assoc BookAccount)
      → IsKeyed l
      → IsKeyed (move_accounts d now from plan l)
  unfolding move_accounts debited credited
  move_accounts-IsKeyed now from plan l h =
      let after = insert from.id (debited d now from plan.amt) l in
      let opened = new_account now plan.to_id plan.out_asset plan.external in
      let to = get_or opened plan.to_id after in
      let first : IsKeyed after = insert-IsKeyed from.id (debited d now from plan.amt) l refl h in
      let at_to : to.id ≡ plan.to_id =
        get_or-keyed opened plan.to_id after
          (new_account-id now plan.to_id plan.out_asset plan.external) first in
      insert-IsKeyed plan.to_id (credited d now to plan) after at_to first

  pub sync_from_snapshot-IsStore :
      (w : Saving) (now : ℤ) (snap : Snapshot F) (s : BookStore)
      → IsSaving w
      → IsStore s
      → IsStore (sync_from_snapshot d w now snap s).1
  unfolding sync_from_snapshot
  sync_from_snapshot-IsStore w now snap s k h =
      after_load-IsStore (sync_loaded d w now snap) s h λ t v.
        save-IsStore w
          (record t {
            book = record t.book { accounts = sync_entries d now snap.entries t.book.accounts };
          })
          k
          (record {
            keyed = sync_entries-IsKeyed now snap.entries t.book.accounts v.in_memory.keyed;
            bounded = v.in_memory.bounded;
          })
