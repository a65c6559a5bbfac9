-- ===== src/Platform/Merge.antt =====
-- MergeWithCustom of internal/bridge/tokenplatform/store.go lists each token once.
use shiva_blockchain.Base.{
  ℕ, ◌+◌, String, ◌≡◌, refl, ap, ◌&&◌, List, [], ◌∷◌, ◌++◌, arith, eq_iff, ltb, ◌==◌, if◌then◌else◌,
}
use shiva_blockchain.Platform.{
  merge_custom, merge_with_custom, PlatformToken, merge_platform, CustomToken, plain_key,
  registered,
}
use shiva_blockchain.Assoc.Keys.{count, count-append}
use shiva_blockchain.Assoc.{Assoc}

unfoldable pub token_keys : List PlatformToken → List String
token_keys [] = []
token_keys (t ∷ l) = plain_key t.chain_id t.id ∷ token_keys l

unfoldable pub custom_keys : List CustomToken → List String
custom_keys [] = []
custom_keys (ct ∷ l) = plain_key ct.chain_id ct.id ∷ custom_keys l

-- 1 for a key that is listed and was not seen.
abbrev new_once : ℕ → ℕ → ℕ
new_once seen listed = if seen == 0 && ltb 0 listed then 1 else 0

count-merge_platform :
    (k : String) (l : List PlatformToken) (seen : List String)
    → count k (token_keys (merge_platform l seen).0)
      ≡ new_once (count k seen) (count k (token_keys l))
unfolding merge_platform token_keys count
count-merge_platform k [] seen = ground arith
count-merge_platform k (t ∷ l) seen =
    let key = plain_key t.chain_id t.id in
    ground
      (arith, eq_iff key k, count-merge_platform k l seen, count-merge_platform k l (key ∷ seen))

seen-merge_platform :
    (k : String) (l : List PlatformToken) (seen : List String)
    → count k (merge_platform l seen).1
      ≡ count k seen + new_once (count k seen) (count k (token_keys l))
unfolding merge_platform token_keys count
seen-merge_platform k [] seen = ground arith
seen-merge_platform k (t ∷ l) seen =
    let key = plain_key t.chain_id t.id in
    ground (arith, eq_iff key k, seen-merge_platform k l seen, seen-merge_platform k l (key ∷ seen))

count-merge_custom :
    (k : String) (types : Assoc String) (l : List CustomToken) (seen : List String)
    → count k (token_keys (merge_custom types l seen))
      ≡ new_once (count k seen) (count k (custom_keys l))
unfolding merge_custom registered token_keys custom_keys count
count-merge_custom k types [] seen = ground arith
count-merge_custom k types (ct ∷ l) seen =
    let key = plain_key ct.chain_id ct.id in
    ground (
      arith,
      eq_iff key k,
      count-merge_custom k types l seen,
      count-merge_custom k types l (key ∷ seen),
    )

token_keys-append : (l m : List PlatformToken) → token_keys (l ++ m) ≡ token_keys l ++ token_keys m
unfolding token_keys
token_keys-append [] m = refl
token_keys-append (t ∷ l) m = ap (λ r. plain_key t.chain_id t.id ∷ r) (token_keys-append l m)

-- A key of chain and token stands exactly once in the merged list if it stands in one of the two lists
-- that are merged, however often, and else not at all.
pub merge_with_custom_once :
    (k : String) (platform : List PlatformToken) (custom : List CustomToken) (types : Assoc String)
    → count k (token_keys (merge_with_custom platform custom types))
      ≡ (if ltb 0 (count k (token_keys platform) + count k (custom_keys custom)) then 1 else 0)
unfolding merge_with_custom count
merge_with_custom_once k platform custom types =
    let kept = (merge_platform platform []).0 in
    let seen = (merge_platform platform []).1 in
    let added = merge_custom types custom seen in
    ground (
      arith,
      ap (count k) (token_keys-append kept added),
      count-append k (token_keys kept) (token_keys added),
      count-merge_platform k platform [],
      seen-merge_platform k platform [],
      count-merge_custom k types custom seen,
    )
