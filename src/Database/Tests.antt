-- ===== src/Database/Tests.antt =====
-- The theorems about protocol/src/storage/db.rs with a codec that wraps what it is given.
use nova_protocol.Common.{◌≡◌, refl, sym, true, false, Option, none, some, [], ◌∷◌, ap}
use nova_protocol.Common.Exec.{ok, err}
use nova_protocol.Transaction.{Transaction}
use nova_protocol.Transaction.Tests.{here}
use nova_protocol.State.{AccountState}
use nova_protocol.Blocks.{Block, new}
use nova_protocol.Blocks.Tests.{first_block}
use nova_protocol.Database.{Codec, IsLawful, open_temporary, tx_batch, put_block, sled_error}
use nova_protocol.Database.Blocks.{get_block-put_block, put_block_partial}

pub data Stored : Type 0 where
  of_block : Block → Stored
  of_transaction : Transaction → Stored
  of_account : AccountState → Stored

abbrev block_in : Stored → Option Block
block_in (of_block b) = some b
block_in _ = none

abbrev transaction_in : Stored → Option Transaction
transaction_in (of_transaction tx) = some tx
transaction_in _ = none

abbrev account_in : Stored → Option AccountState
account_in (of_account s) = some s
account_in _ = none

abbrev pub wrapping : Codec
wrapping = record {
  Encoded = Stored;
  from_block = λ b. some (of_block b);
  to_block = block_in;
  from_transaction = λ tx. some (of_transaction tx);
  to_transaction = transaction_in;
  from_account = λ s. some (of_account s);
  to_account = account_in;
}

some_inj : {A : Type 0} (a b : A) → some a ≡ some b → a ≡ b
some_inj a b e = cc

pub wrapping-IsLawful : IsLawful wrapping
wrapping-IsLawful = record {
  block_back = λ b x e. ap block_in (sym (some_inj (of_block b) x e));
  transaction_back = λ tx x e. ap transaction_in (sym (some_inj (of_transaction tx) x e));
  account_back = λ s x e. ap account_in (sym (some_inj (of_account s) x e));
}

abbrev pub stored_here : Stored
stored_here = of_transaction here

pub batched :
    tx_batch wrapping first_block.transactions
    ≡ some ((here.id, stored_here) ∷ (here.id, stored_here) ∷ (here.id, stored_here) ∷ [])
unfolding tx_batch new
batched = refl

get_block-put_block_example : (put_block wrapping first_block (open_temporary [])).0 ≡ ok tt
get_block-put_block_example =
    (get_block-put_block wrapping first_block (of_block first_block)
      ((here.id, stored_here) ∷ (here.id, stored_here) ∷ (here.id, stored_here) ∷ [])
      (open_temporary []) wrapping-IsLawful refl refl batched).0

put_block_partial_example :
    (put_block wrapping first_block (open_temporary (false ∷ true ∷ []))).0 ≡ err sled_error
put_block_partial_example =
    (put_block_partial wrapping first_block (of_block first_block)
      (open_temporary (false ∷ true ∷ [])) wrapping-IsLawful refl refl).0
