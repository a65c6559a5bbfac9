-- ===== src/Lib.antt =====
-- A verification library for OneX: the node of a proof-of-work chain with accounts
-- (internal/types, crypto, chain, consensus, storage, mempool, network, node, rpc, faucet, wallet), the
-- middleware of its API (internal/api), the logic of its wallet bridge (internal/bridge: portfolios,
-- tasks, staking, loans, the exchange of internal/bridge/amm, the token platform), the ledger of
-- internal/ledger, and the stores of the launcher (bsc-launcher/server).
--
-- How the parts interact. A node owns a blockchain object, a pool of waiting transactions and a set
-- of peers. Requests (`submitTx`) and messages of peers put transactions into the pool after
-- `ValidateTx`; each tick of `mineLoop` takes up to a hundred of them, and `FinalizeAndMineBlock`
-- runs them on a copy of the state, searches a proof of work and hands the block to
-- `applyBlockInternal`, which also takes the blocks of peers. The blockchain object keeps its state
-- in memory and its blocks in the store. The faucet builds transfers and adds them to the pool. The
-- bridge keeps a portfolio per wallet and a store of pools; it reads the balance of ONEX from the
-- node whenever it loads a portfolio. The token platform deploys and wraps tokens through adapters
-- of chains, and moves the balances of the same portfolio. The ledger collects entries from banks,
-- chains, the portfolio and files into a snapshot; its book of accounts takes the snapshot and
-- moves amounts between accounts, which a callback may settle outside.
--
-- Files and code:
--   Base, Base/*        uint64 and int64 arithmetic, big.Int, (value, error), strings, decimal text
--   Assoc, Assoc/*      Go maps with string keys
--   Types               internal/types/types.go; Types/Hex: the text of encoding/hex
--   Crypto              internal/crypto/crypto.go
--   State, State/*      internal/chain/state.go: `ApplyTransaction` is `apply_transaction`, and so on;
--                       the supply of coins, accounts, replay, minting
--   Pow, Pow/*          internal/consensus/pow.go: Search has its rounds, Nonces their nonces
--   Storage             internal/storage/storage.go
--   Chain, Chain/Defs   internal/chain/chain.go: Chain/Defs has the object and `applyBlockInternal`,
--                       Chain has `New`, `rebuildState`, `FinalizeAndMineBlock` and the getters; the other
--                       files below Chain are about atomicity, the state root, the supply, mining,
--                       restarts and the tests that are left out
--   Mempool, .../Order  internal/mempool/mempool.go
--   Wallet, .../Signing internal/wallet/wallet.go
--   Legacy              internal/legacy/legacy.go
--   Node, Node/*        internal/node/node.go, the handlers of internal/network/network.go, and
--                       `submitTx` of internal/rpc/rpc.go; Node/Steps has the runs of a node
--   Faucet, .../Drips   internal/faucet/faucet.go
--   Amm, Amm/*          internal/bridge/amm/pool.go and store.go
--   Rpc/Amount, Rpc/Call  `ParseAmount` and `call` of internal/rpc/rpc.go
--   Bridge/*            internal/bridge/registry.go, portfolio.go, real.go, defi.go, staking.go and
--                       onexswap.go
--   Strings             what the code calls of package strings
--   State/Ledger, Chain/Refinement  an abstract ledger, accounts as a function, for blocks
--   State/Order, State/Root  the order of the keys, and the state root
--   Ledger, Ledger/*    internal/ledger: Ledger has the types; Convert convert.go and the text of atomic
--                       amounts (evm.go); External and Destination external.go; Store, Request,
--                       Transfer and Active book.go; Reading bank.go and universal.go; Engine
--                       engine.go; Float the operations of float64; the other files are about
--                       payments, snapshots, runs, the choice of an account and production mode
--   Platform, Platform/*  internal/bridge/tokenplatform, tokenplatform_bridge.go and createtoken.go:
--                       Bridging deploys, Wrapping wraps; Merge and Balances are about them
--   Api, Api/Limit      internal/api/middleware.go
--   Launcher, Launcher/*  bsc-launcher/server/store.go and fix_pending.go; Registry dexregistry.go;
--                       Listings `scoreReadiness` of listings.go
--   Tests, Tests/*      runs at concrete inputs
--
-- How state is modelled. An object is a record, and a method takes it and returns its result beside
-- the new record, since what was written before an error stays written. Errors are data types, a
-- panic included. A method of an object with a mutex is one step; `Node.Steps.Step` is what may happen
-- to a node, in any order. A store of files is the map of what was written, and whether a write
-- succeeds is an argument. The order in which Go visits a map is an argument where it shows.
--
-- Parameters: SHA-256 and ed25519 (`Crypto.Primitives`), the arithmetic of float64
-- (`Bridge.Staking.Floats`), the time, new IDs, the answer of the node and the balances read from
-- other chains (`Bridge.Portfolio`: `Stamp`, `Surroundings`), float64 in the ledger
-- (`Ledger.Float.Float64`, with what IEEE 754 says as `IsOrdered` and `IsNan`), the settlement of a
-- transfer (`Ledger.Transfer.Settle`), the adapters of chains (`Platform.Bridging.Adapter`), and what
-- decoding JSON gives (`Ledger.Reading.Readings`, `Ledger.Store.BookFile`, `Launcher.TokenFile`).
--
-- Fuel and bounds. `MineBlock` loops until a hash meets the target: `mine_loop` takes fuel, and any
-- fuel above the number of the first success gives that success. Printing a number and `big.Int.Sqrt`
-- take the number itself as fuel, which is more than its digits. uint64 sums, differences and products
-- wrap at 2 ^ 64 where the code lets them. A difficulty of 2 ^ 63 or more panics; a smaller one that
-- exhausts the memory does not, here.
--
-- A wallet of the bridge exists and its portfolio can be read; a call of the bridge takes the portfolio
-- as it was loaded.
--
-- Not modelled: JSON, sockets and HTTP, files of wallets and portfolios, goroutines and the sending
-- of messages to each peer, the drawing of random keys and IDs, the price impact as text,
-- floating-point rates (the rate swaps of defi.go), the calls to banks and other chains, deployment
-- payloads, most of the launcher, front ends and deployment. Accounts in the file of a book are not
-- null. Trimming of space and folding of case are those of ASCII text. A number read with `Sscanf`
-- has no sign.
pub mod Base
pub mod Assoc
pub mod Types
pub mod Crypto
pub mod State
pub mod Pow
pub mod Storage
pub mod Strings
pub mod Chain
pub mod Mempool
pub mod Wallet
pub mod Api
pub mod Platform
pub mod Launcher
pub mod Ledger
pub mod Legacy
pub mod Node
pub mod Faucet
pub mod Amm
pub mod Rpc
pub mod Tests
pub mod Bridge
