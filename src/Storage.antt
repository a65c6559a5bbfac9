-- ===== src/Storage.antt =====
-- internal/storage/storage.go: the block files and the height in meta.json. The files are what
-- survives a restart; whether a write succeeds is an argument.
use shiva_blockchain.Base.{
  ℕ, Bool, true, Option, none, some, List, [], ◌∷◌, ltb, ◌==◌, if◌then◌else◌, Result, ok, err,
  or_fail,
}
use shiva_blockchain.Types.{Block}

-- The directory: the block files by index, and the height in meta.json, if that was ever written.
pub record Disk : Type 0 where
  pub blocks : List (ℕ × Block)
  pub meta : Option ℕ

pub record Store : Type 0 where
  pub disk : Disk
  pub height : ℕ

pub data StoreError : Type 0 where
  write_failed not_found : StoreError

-- Whether the two calls of `os.WriteFile` in a `PutBlock` succeed.
pub record Writes : Type 0 where
  pub block_file : Bool
  pub meta_file : Bool

abbrev pub all_written : Writes
all_written = record { block_file = true; meta_file = true }

-- `os.ReadFile` and `os.WriteFile` at `blockPath(index)`.
unfoldable pub read_file : ℕ → List (ℕ × Block) → Option Block
read_file i [] = none
read_file i ((j, b) ∷ files) = if j == i then some b else read_file i files

unfoldable pub write_file : ℕ → Block → List (ℕ × Block) → List (ℕ × Block)
write_file i b files = (i, b) ∷ files

-- `Open` with `loadMeta`: an absent meta.json is height 0.
unfoldable pub open_store : Disk → Store
open_store d = record { disk = d; height = elim d.meta [ none ↦ 0 | some h ↦ h ] }

-- `saveMeta`
unfoldable pub save_meta : Bool → Store → Result StoreError (Unit {0}) × Store
save_meta works s =
    if works
    then (ok tt, record s { disk = record (s.disk) { meta = some s.height } })
    else (err write_failed, s)

-- `PutBlock`
unfoldable pub put_block : Writes → Block → Store → Result StoreError (Unit {0}) × Store
put_block w b s =
    let d = record (s.disk) { blocks = write_file b.header.index b s.disk.blocks } in
    let h = if ltb s.height b.header.index then b.header.index else s.height in
    if w.block_file
    then save_meta w.meta_file (record { disk = d; height = h })
    else (err write_failed, s)

-- `GetBlock`
unfoldable pub get_block : ℕ → Store → Result StoreError Block
get_block i s = or_fail (read_file i s.disk.blocks) not_found

-- `GetTip`
unfoldable pub get_tip : Store → Result StoreError Block
get_tip s = if s.height == 0 then get_block 0 s else get_block s.height s
