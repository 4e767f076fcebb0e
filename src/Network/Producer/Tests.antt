-- ===== src/Network/Producer/Tests.antt =====
-- The theorems about protocol/src/network/producer.rs with a map as the store of accounts.
use nova_protocol.Common.{
  ◌<◌, ◌≡◌, refl, String, true, some, [], ◌∷◌, arith, replicate, ◌=?◌, string_key, bits_key,
}
use nova_protocol.Common.Dict.{Dict, lookup}
use nova_protocol.Common.Exec.{ok}
use nova_protocol.Transaction.{Transaction}
use nova_protocol.Transaction.Tests.{here, toy as toy_transaction}
use nova_protocol.Transaction.Builder.{build}
use nova_protocol.Blocks.{Bytes, genesis}
use nova_protocol.Blocks.Tests.{first_block, toy as toy_blocks}
use nova_protocol.State.{AccountState}
use nova_protocol.State.Transfer.Tests.{map_store, two}
use nova_protocol.Database.{open_temporary}
use nova_protocol.Database.Tests.{
  Stored, of_block, stored_here, wrapping, wrapping-IsLawful, batched,
}
use nova_protocol.Network.Consensus.{Primitives, Keypair}
use nova_protocol.Network.Mempool.{new}
use nova_protocol.Network.Mempool.Operations.{new-IsValid}
use nova_protocol.Network.Mempool.Tests.{config}
use nova_protocol.Network.Producer.{
  BlockProducer, ProducedBlock, execute_all, produce_block, commit_block,
}
use nova_protocol.Network.Producer.Execution.{transfer_replays}
use nova_protocol.Network.Producer.Production.{produce_block_lem, commit_block_lem}

-- A signature is the message.
abbrev keys : Keypair
keys = record { public_key = []; sign = λ m. m }

abbrev producer : BlockProducer map_store Stored
producer = record {
  db = open_temporary [];
  state_tree = two;
  mempool = new config;
  keypair = keys;
  validator_address = "v";
}

abbrev root : Dict String AccountState → Bytes
root t = replicate 256 true

-- A signature is good for the message that it is, and a header has no JSON form.
abbrev exact : Primitives
exact = record {
  from_hex = λ name. some [];
  verify = λ key message signature. message =? signature;
  header_bytes = λ h. [];
  to_hex = λ key. "v";
  blocks = toy_blocks;
}

genesis_low : (genesis toy_blocks).header.height < 18446744073709551615
unfolding genesis
genesis_low = omega arith

abbrev output : ProducedBlock
output =
    (produce_block_lem map_store toy_blocks root 1000 (genesis toy_blocks) 10 producer
      genesis_low).0

produce_block_lem_example :
    (produce_block map_store toy_blocks root 1000 (genesis toy_blocks) 10 producer).0 ≡ ok output
produce_block_lem_example =
    (produce_block_lem map_store toy_blocks root 1000 (genesis toy_blocks) 10 producer
      genesis_low).1

commit_block_lem_example : (commit_block map_store wrapping first_block producer).0 ≡ ok tt
commit_block_lem_example =
    (commit_block_lem map_store toy_blocks root toy_transaction wrapping first_block
      (of_block first_block)
      ((here.id, stored_here) ∷ (here.id, stored_here) ∷ (here.id, stored_here) ∷ []) producer
      wrapping-IsLawful refl refl batched (new-IsValid toy_transaction config (omega arith))).0

abbrev payment : Transaction
payment = record here { sender = "alice"; receiver = "bob" }

transfer_replays_example :
    (execute_all map_store (payment ∷ payment ∷ []) two).successful_txs ≡ payment ∷ payment ∷ []
unfolding lookup build
transfer_replays_example =
    (transfer_replays map_store payment two refl tt tt (λ e. cc) refl (omega arith) (omega arith)
      (omega arith)).0
