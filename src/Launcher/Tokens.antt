-- ===== src/Launcher/Tokens.antt =====
-- The addresses in the launcher's store of tokens are different, up to the case of letters.
use shiva_blockchain.Base.{
  String, ◌≡◌, refl, ap, ◌∙◌, inl, inr, true, false, List, [], ◌∷◌, ◌++◌, arith, Bool-cases, Bytes,
  codes,
}
use shiva_blockchain.Base.Int.{ℤ}
use shiva_blockchain.Amm.Pool.{same_folded, equal_fold}
use shiva_blockchain.Launcher.{
  upsert_token, TokenRecord, add_token, dated, Writing, upserted, TokenFile, save_tokens,
  has_address, absent, broken, listing, done, stopped, load_tokens,
}
use shiva_blockchain.Strings.{to_lower}

same_folded_comm : (s t : Bytes) → same_folded s t ≡ same_folded t s
unfolding same_folded
same_folded_comm [] [] = refl
same_folded_comm [] (b ∷ t) = refl
same_folded_comm (a ∷ s) [] = refl
same_folded_comm (a ∷ s) (b ∷ t) = ground (arith, same_folded_comm s t)

same_folded_trans :
    (s t u : Bytes) → same_folded s t ≡ true → same_folded t u ≡ true → same_folded s u ≡ true
unfolding same_folded
same_folded_trans [] [] u h k = k
same_folded_trans [] (b ∷ t) u h k = cc
same_folded_trans (a ∷ s) [] u h k = cc
same_folded_trans (a ∷ s) (b ∷ t) [] h k = cc
same_folded_trans (a ∷ s) (b ∷ t) (x ∷ u) h k = ground (arith, same_folded_trans s t u)

equal_fold_comm : (s t : String) → equal_fold s t ≡ equal_fold t s
unfolding equal_fold
equal_fold_comm s t = same_folded_comm (codes s) (codes t)

equal_fold_trans :
    (s t u : String) → equal_fold s t ≡ true → equal_fold t u ≡ true → equal_fold s u ≡ true
unfolding equal_fold
equal_fold_trans s t u h k = same_folded_trans (codes s) (codes t) (codes u) h k

-- A text that differs from one of two that are the same differs from the other.
equal_fold-other :
    (s t u : String) → equal_fold t u ≡ true → equal_fold s t ≡ false → equal_fold s u ≡ false
equal_fold-other s t u same h = ground (arith, equal_fold_comm t u, equal_fold_trans s u t)

-- No record of the list has the address.
abbrev pub IsFresh : String → List TokenRecord → Type 0
IsFresh addr [] = Unit
IsFresh addr (t ∷ l) = (equal_fold t.contract_address addr ≡ false) × IsFresh addr l

abbrev pub IsDistinct : List TokenRecord → Type 0
IsDistinct [] = Unit
IsDistinct (t ∷ l) = IsFresh t.contract_address l × IsDistinct l

abbrev pub IsDistinctFile : TokenFile → Type 0
IsDistinctFile absent = Unit
IsDistinctFile broken = Unit
IsDistinctFile (listing l) = IsDistinct l

abbrev pub IsDistinctWriting : Writing → Type 0
IsDistinctWriting done = Unit
IsDistinctWriting (stopped f) = IsDistinctFile f

has_address-IsFresh :
    (addr : String) (l : List TokenRecord) → has_address addr l ≡ false → IsFresh addr l
unfolding has_address
has_address-IsFresh addr [] h = tt
has_address-IsFresh addr (t ∷ l) h = (ground arith, has_address-IsFresh addr l (ground arith))

address-dated : (t : ℤ) (rec : TokenRecord) → (dated t rec).contract_address ≡ rec.contract_address
unfolding dated
address-dated t rec = ground arith

IsFresh-append :
    (addr : String) (l : List TokenRecord) (rec : TokenRecord)
    → IsFresh addr l
    → equal_fold rec.contract_address addr ≡ false
    → IsFresh addr (l ++ (rec ∷ []))
IsFresh-append addr [] rec h k = (k, tt)
IsFresh-append addr (t ∷ l) rec (a, h) k = (a, IsFresh-append addr l rec h k)

IsDistinct-append :
    (l : List TokenRecord) (rec : TokenRecord)
    → IsDistinct l
    → IsFresh rec.contract_address l
    → IsDistinct (l ++ (rec ∷ []))
IsDistinct-append [] rec h k = (tt, tt)
IsDistinct-append (t ∷ l) rec (a, h) (b, k) = (
  IsFresh-append t.contract_address l rec a
      (equal_fold_comm rec.contract_address t.contract_address ∙ b),
  IsDistinct-append l rec h k,
)

IsFresh-same :
    (s t : String) (l : List TokenRecord) → equal_fold s t ≡ true → IsFresh s l → IsFresh t l
IsFresh-same s t [] same h = tt
IsFresh-same s t (x ∷ l) same (a, h) =
    (equal_fold-other x.contract_address s t same a, IsFresh-same s t l same h)

IsFresh-upserted :
    (now : ℤ) (addr : String) (rec : TokenRecord) (l : List TokenRecord)
    → IsFresh addr l
    → equal_fold rec.contract_address addr ≡ false
    → IsFresh addr (upserted now rec l)
unfolding upserted
IsFresh-upserted now addr rec [] h k = (ap (λ a. equal_fold a addr) (address-dated now rec) ∙ k, tt)
IsFresh-upserted now addr rec (t ∷ l) (a, h) k =
    elim (Bool-cases (equal_fold t.contract_address rec.contract_address)) [
      | inl same ↦
          rw (same, upserted) (ap (λ a. equal_fold a addr) (address-dated t.created_at rec) ∙ k, h)
      | inr other ↦ rw (other, upserted) (a, IsFresh-upserted now addr rec l h k)
    ]

upserted-IsDistinct :
    (now : ℤ) (rec : TokenRecord) (l : List TokenRecord)
    → IsDistinct l
    → IsDistinct (upserted now rec l)
unfolding upserted
upserted-IsDistinct now rec [] h = (tt, tt)
upserted-IsDistinct now rec (t ∷ l) (a, h) =
    elim (Bool-cases (equal_fold t.contract_address rec.contract_address)) [
      | inl same ↦
          rw (same, upserted)
            (
              rw (address-dated t.created_at rec)
                  (IsFresh-same t.contract_address rec.contract_address l same a),
              h,
            )
      | inr other ↦
          rw (other, upserted)
            (
              IsFresh-upserted now t.contract_address rec l a
                  (equal_fold_comm rec.contract_address t.contract_address ∙ other),
              upserted-IsDistinct now rec l h,
            )
    ]

save_tokens-IsDistinct :
    (w : Writing) (l : List TokenRecord)
    → IsDistinctWriting w
    → IsDistinct l
    → IsDistinctFile (save_tokens w l).1
unfolding save_tokens
save_tokens-IsDistinct done l k h = h
save_tokens-IsDistinct (stopped f) l k h = k

upsert_token-IsDistinct :
    (w : Writing) (now : ℤ) (rec : TokenRecord) (file : TokenFile)
    → IsDistinctWriting w
    → IsDistinctFile file
    → IsDistinctFile (upsert_token w now rec file).1
unfolding upsert_token load_tokens
upsert_token-IsDistinct w now rec absent k h =
    save_tokens-IsDistinct w _ k (upserted-IsDistinct now _ [] tt)
upsert_token-IsDistinct w now rec broken k h = tt
upsert_token-IsDistinct w now rec (listing l) k h =
    save_tokens-IsDistinct w _ k (upserted-IsDistinct now _ l h)

added-IsDistinct :
    (now : ℤ) (rec : TokenRecord) (l : List TokenRecord)
    → has_address rec.contract_address l ≡ false
    → IsDistinct l
    → IsDistinct (l ++ (dated now rec ∷ []))
added-IsDistinct now rec l absent_now h =
    IsDistinct-append l (dated now rec) h
      (rw (address-dated now rec) (has_address-IsFresh rec.contract_address l absent_now))

add_token-IsDistinct :
    (w : Writing) (now : ℤ) (rec : TokenRecord) (file : TokenFile)
    → IsDistinctWriting w
    → IsDistinctFile file
    → IsDistinctFile (add_token w now rec file).1
unfolding add_token load_tokens save_tokens has_address
add_token-IsDistinct w now rec absent k h = save_tokens-IsDistinct w _ k (tt, tt)
add_token-IsDistinct w now rec broken k h = tt
add_token-IsDistinct w now rec (listing l) k h =
    elim (Bool-cases (has_address (to_lower rec.contract_address) l)) [
      | inl taken ↦ rw (taken, add_token) h
      | inr free ↦
          let lowered = record rec { contract_address = to_lower rec.contract_address } in
          rw (free, add_token)
            (save_tokens-IsDistinct w _ k (added-IsDistinct now lowered l free h))
    ]

-- `Add` and `Upsert` keep the addresses of the stored tokens different up to the case of letters, also
-- where they fail, if a failed write leaves such a file.
pub token_store-IsDistinct :
    (w : Writing) (now : ℤ) (rec : TokenRecord) (file : TokenFile)
    → IsDistinctWriting w
    → IsDistinctFile file
    → IsDistinctFile (add_token w now rec file).1 × IsDistinctFile (upsert_token w now rec file).1
token_store-IsDistinct w now rec file k h =
    (add_token-IsDistinct w now rec file k h, upsert_token-IsDistinct w now rec file k h)
