-- ===== src/State/Transfer.antt =====
-- `apply_transfer` of protocol/src/storage/state.rs over any store of accounts.
pub mod Effect
pub mod Conservation
pub mod Tests
use nova_protocol.Common.{ℕ, ◌+◌, ◌-◌, String, ltb, if◌then◌else◌, wrap64}
use nova_protocol.Common.Exec.{Result, ok, err, panic, Exec, ◌>>=◌, ◌>>◌, get, put, gets, raise_if}
use nova_protocol.State.{AccountState, AccountStore, unwrap_or_default}

pub data StateError : Type 0 where
  insufficient_balance : ℕ → ℕ → StateError
  account_frozen : String → StateError

-- The additions are unchecked and wrap in a release build.
unfoldable pub apply_transfer :
    (store : AccountStore) → String → String → ℕ → Exec store.Tree (Unit {0}) StateError
apply_transfer store sender receiver amount = do
  t ← get
  let sender_state = unwrap_or_default (store.get sender t)
  raise_if sender_state.frozen (account_frozen sender)
  raise_if (ltb sender_state.balance amount) (insufficient_balance sender_state.balance amount)
  put (
      store.put sender
        (record sender_state {
          balance = sender_state.balance - amount;
          nonce = wrap64 (sender_state.nonce + 1);
        })
        t)
  t' ← get
  let receiver_state = unwrap_or_default (store.get receiver t')
  put (
      store.put receiver
        (record receiver_state { balance = wrap64 (receiver_state.balance + amount) }) t')
