-- ===== src/Amm/Store.antt =====
-- internal/bridge/amm/store.go: the pools by their ID. Whether pools.json can be written is an
-- argument; the file holds the pools that were in the map when it was written last.
use shiva_blockchain.Base.{
  String, Bool, Option, List, [], ◌∷◌, str_eq, if◌then◌else◌, Result, ok, err,
}
use shiva_blockchain.Base.Int.{is_zero}
use shiva_blockchain.Assoc.{Assoc, lookup, insert, values}
use shiva_blockchain.Amm.Pool.{Pool, default_fee_bps, pool_id}

pub data PoolsFile : Type 0 where
  missing unreadable malformed : PoolsFile
  holds : List Pool → PoolsFile

pub record Store : Type 0 where
  pub pools : Assoc Pool
  pub file : PoolsFile

pub data FileError : Type 0 where
  read_failed write_failed bad_json : FileError

-- `persistLocked`
unfoldable pub persist : Bool → Store → Result FileError (Unit {0}) × Store
persist works s =
    if works then (ok tt, record s { file = holds (values s.pools) }) else (err write_failed, s)

-- A seed pool with its defaults.
unfoldable pub with_defaults : Pool → Pool
with_defaults p = record p {
  fee_bps = if is_zero p.fee_bps then default_fee_bps else p.fee_bps;
  id = if str_eq p.id "" then pool_id p.token0 p.token1 else p.id;
}

unfoldable pub load_seed : List Pool → Assoc Pool → Assoc Pool
load_seed [] m = m
load_seed (p ∷ seed) m = load_seed seed (insert (with_defaults p).id (with_defaults p) m)

unfoldable pub load_list : List Pool → Assoc Pool → Assoc Pool
load_list [] m = m
load_list (p ∷ l) m = load_list l (insert p.id p m)

load_from : Bool → List Pool → Store → PoolsFile → Result FileError (Unit {0}) × Store
load_from works seed s missing = persist works (record s { pools = load_seed seed s.pools })
load_from works seed s unreadable = (err read_failed, s)
load_from works seed s malformed = (err bad_json, s)
load_from works seed s (holds l) = (ok tt, record s { pools = load_list l [] })

-- `Load`
unfoldable pub load : Bool → List Pool → Store → Result FileError (Unit {0}) × Store
unfolding load_from
load works seed s = load_from works seed s s.file

-- `Get`
unfoldable pub get : String → Store → Option Pool
get id s = lookup id s.pools

-- `FindPool`
unfoldable pub find_pool : String → String → Store → Option Pool
find_pool a b s = get (pool_id a b) s

-- `List`
unfoldable pub list_pools : Store → List Pool
list_pools s = values s.pools

-- `Update`
unfoldable pub update : Bool → Pool → Store → Result FileError (Unit {0}) × Store
update works p s = persist works (record s { pools = insert p.id p s.pools })
