-- ===== src/Tests/Samples.antt =====
-- Sample data: a chain of one block, its accounts, and cryptography that accepts every signature.
use shiva_blockchain.Base.{String, true, none, some, [], ◌∷◌, ◌++◌, Bytes}
use shiva_blockchain.Base.Int.{pos}
use shiva_blockchain.Types.{Transaction, BlockHeader, Block, ChainState, GenesisConfig}
use shiva_blockchain.Crypto.{Primitives}
use shiva_blockchain.Storage.{Store}
use shiva_blockchain.Chain.Defs.{Blockchain}

abbrev pub some_key : Bytes
some_key =
    1 ∷ 2 ∷ 3 ∷ 4 ∷ 5 ∷ 6 ∷ 7 ∷ 8 ∷ 1 ∷ 2 ∷ 3 ∷ 4 ∷ 5 ∷ 6 ∷ 7 ∷ 8 ∷ 1 ∷ 2 ∷ 3 ∷ 4 ∷ 5 ∷ 6 ∷ 7 ∷ 8
    ∷ 1 ∷ 2 ∷ 3 ∷ 4 ∷ 5 ∷ 6 ∷ 7 ∷ 8 ∷ []

abbrev pub toy : Primitives
toy = record {
  sha256 = λ payload. 1 ∷ [];
  ed25519_verify = λ public message signature. true;
  ed25519_sign = λ private message. 7 ∷ [];
  ed25519_public = λ private. some_key;
  ed25519_from_seed = λ seed. seed ++ some_key;
}

abbrev pub alice : String
alice = "aaaaaaaaaaaaaaaaaaaaaaaaaaaaaaaaaaaaaaaaaaaaaaaaaaaaaaaaaaaaaaaa"

abbrev pub bob : String
bob = "bbbbbbbbbbbbbbbbbbbbbbbbbbbbbbbbbbbbbbbbbbbbbbbbbbbbbbbbbbbbbbbb"

abbrev pub config : GenesisConfig
config = record {
  chain_id = "onex-mainnet-1";
  network_id = 9001;
  difficulty = 1;
  alloc = (alice, 100) ∷ [];
  reward = 50;
}

abbrev pub first_header : BlockHeader
first_header = record {
  index = 0;
  timestamp = pos 5;
  previous_hash = "0";
  state_root = "01";
  difficulty = 1;
  miner = "";
  nonce = 1;
}

abbrev pub first_block : Block
first_block = record { header = first_header; transactions = []; hash = "01" }

abbrev pub funded : ChainState
funded = (alice, record { balance = 100; nonce = 0 }) ∷ []

abbrev pub one_block : Store
one_block = record { disk = record { blocks = (0, first_block) ∷ []; meta = some 0 }; height = 0 }

abbrev pub chain_of_one : Blockchain
chain_of_one = record { store = one_block; state = funded; genesis = config; block_reward = 50 }

-- Ten coins from the first account to the second, with a fee of one.
abbrev pub payment : Transaction
payment = record { from = alice; to = bob; amount = 10; fee = 1; nonce = 0; signature = "07" }

abbrev pub mint : Transaction
mint = record { from = ""; to = bob; amount = 10; fee = 0; nonce = 0; signature = "" }

abbrev pub nothing_stored : Store
nothing_stored = record { disk = record { blocks = []; meta = none }; height = 0 }
