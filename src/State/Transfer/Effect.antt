-- ===== src/State/Transfer/Effect.antt =====
-- What a transfer of protocol/src/storage/state.rs does to the accounts.
use nova_protocol.Common.{
  ℕ, ◌+◌, ◌-◌, ◌≤◌, ◌<◌, ◌≡◌, ◌≢◌, refl, Bool, true, false, String, some, arith, u64_max, wrap64,
  same_iff, ◌=?◌, string_key, if◌then◌else◌,
}
use nova_protocol.Common.Dict.{lookup}
use nova_protocol.Common.Exec.{ok, err}
use nova_protocol.State.{
  AccountState, SameAccount, SameAccount-refl, AccountStore, unwrap_or_default,
}
use nova_protocol.State.Transfer.{account_frozen, insufficient_balance, apply_transfer}

module _ (store : AccountStore) where
  open store use {Tree, Known, get-put}

  -- The state of an account, absent ones read as the default.
  abbrev pub account : String → Tree → AccountState
  account a t = unwrap_or_default (store.get a t)

  abbrev pub balance_of : String → Tree → ℕ
  balance_of a t = (account a t).balance

  account-put :
      (a b : String) (s : AccountState) (t : Tree)
      → Known a
      → Known b
      → SameAccount (if b =? a then s else account b t) (account b (store.put a s t))
  account-put a b s t ka kb =
      let (s', e, same) = get-put a b s t ka kb in rw e (split s' same (b =? a))
    where
      split :
          (s' : AccountState)
          → SameAccount s s'
          → (c : Bool)
          → SameAccount
              (if c then s else account b t)
              (unwrap_or_default (if c then some s' else store.get b t))
      split s' same true = same
      split s' same false = SameAccount-refl (account b t)

  -- A frozen sender, or one that does not have the amount, is refused with nothing changed.
  pub apply_transfer_refused :
      (sender receiver : String) (amount : ℕ) (t : Tree)
      → ((account sender t).frozen ≡ true
          → apply_transfer store sender receiver amount t ≡ (err (account_frozen sender), t))
        × ((account sender t).frozen ≡ false
            → balance_of sender t < amount
            → apply_transfer store sender receiver amount t
              ≡ (err (insufficient_balance (balance_of sender t) amount), t))
  unfolding apply_transfer
  apply_transfer_refused sender receiver amount t = (λ h. ground arith, λ h less. ground arith)

  after_debit : String → ℕ → Tree → Tree
  after_debit sender amount t =
      store.put sender
        (record (account sender t) {
          balance = balance_of sender t - amount;
          nonce = wrap64 ((account sender t).nonce + 1);
        })
        t

  after_credit : String → ℕ → Tree → Tree
  after_credit receiver amount t =
      store.put receiver
        (record (account receiver t) { balance = wrap64 (balance_of receiver t + amount) }) t

  apply_transfer-eq :
      (sender receiver : String) (amount : ℕ) (t : Tree)
      → (account sender t).frozen ≡ false
      → amount ≤ balance_of sender t
      → apply_transfer store sender receiver amount t
        ≡ (ok tt, after_credit receiver amount (after_debit sender amount t))
  unfolding apply_transfer after_debit after_credit
  apply_transfer-eq sender receiver amount t active covered = ground arith

  account-after_debit :
      (sender a : String) (amount : ℕ) (t : Tree)
      → Known sender
      → Known a
      → SameAccount
          (if a =? sender
            then record (account sender t) {
              balance = balance_of sender t - amount;
              nonce = wrap64 ((account sender t).nonce + 1);
            }
            else account a t)
          (account a (after_debit sender amount t))
  unfolding after_debit
  account-after_debit sender a amount t ks ka = account-put sender a _ t ks ka

  account-after_credit :
      (receiver a : String) (amount : ℕ) (t : Tree)
      → Known receiver
      → Known a
      → SameAccount
          (if a =? receiver
            then record (account receiver t) { balance = wrap64 (balance_of receiver t + amount) }
            else account a t)
          (account a (after_credit receiver amount t))
  unfolding after_credit
  account-after_credit receiver a amount t kr ka = account-put receiver a _ t kr ka

  -- What a transfer leaves alone in an account.
  abbrev pub SameRest : AccountState → AccountState → Type 0
  SameRest s s' =
      (s'.frozen ≡ s.frozen)
      × ((k : String) → lookup k s'.balance_commitments ≡ lookup k s.balance_commitments)
      × (s'.credit_lines ≡ s.credit_lines)

  -- Between accounts known to the store, a transfer from a sender that is not frozen and has the
  -- amount, in 64 bits, succeeds: it moves the amount from the sender to the receiver, raises the
  -- sender's nonce by one (modulo 2^64) and changes nothing else in any known account, also where
  -- the two are one account, if the new balance of another account as receiver fits in 64 bits.
  pub apply_transfer_ok :
      (sender receiver : String) (amount : ℕ) (t : Tree)
      → Known sender
      → Known receiver
      → (account sender t).frozen ≡ false
      → amount ≤ balance_of sender t
      → balance_of sender t ≤ u64_max
      → (receiver ≢ sender → balance_of receiver t + amount ≤ u64_max)
      → let (r, t') = apply_transfer store sender receiver amount t in
        (r ≡ ok tt)
        × ((a : String)
            → Known a
            → (balance_of a t' + (if a =? sender then amount else 0)
                ≡ balance_of a t + (if a =? receiver then amount else 0))
              × ((account a t').nonce
                  ≡ (if a =? sender then wrap64 ((account a t).nonce + 1) else (account a t).nonce))
              × SameRest (account a t) (account a t'))
  apply_transfer_ok sender receiver amount t ks kr active covered small fits =
      rw (apply_transfer-eq sender receiver amount t active covered) (
        refl,
        λ a ka.
            let c = account-after_credit receiver a amount (after_debit sender amount t) kr ka in
            let d = account-after_debit sender a amount t ks ka in
            let r = account-after_debit sender receiver amount t ks kr in
            (
              ground (
                arith,
                same_iff a sender,
                same_iff a receiver,
                same_iff receiver sender,
                c.same_balance,
                d.same_balance,
                r.same_balance,
              ),
              ground (
                arith,
                same_iff a sender,
                same_iff a receiver,
                same_iff receiver sender,
                c.same_nonce,
                d.same_nonce,
                r.same_nonce,
              ),
              (
                ground (
                  arith,
                  same_iff a sender,
                  same_iff a receiver,
                  same_iff receiver sender,
                  c.same_frozen,
                  d.same_frozen,
                  r.same_frozen,
                ),
                λ k. ground (
                  arith,
                  same_iff a sender,
                  same_iff a receiver,
                  same_iff receiver sender,
                  c.same_commitments k,
                  d.same_commitments k,
                  r.same_commitments k,
                ),
                ground (
                  arith,
                  same_iff a sender,
                  same_iff a receiver,
                  same_iff receiver sender,
                  c.same_credit_lines,
                  d.same_credit_lines,
                  r.same_credit_lines,
                ),
              ),
            ),
      )

  -- If the new balance of a receiver other than the sender passes 64 bits, a transfer between
  -- known accounts with balances of 64 bits, from a sender that is not frozen and has the amount,
  -- succeeds all the same, and 2^64 units are lost.
  pub apply_transfer_overflow :
      (sender receiver : String) (amount : ℕ) (t : Tree)
      → Known sender
      → Known receiver
      → receiver ≢ sender
      → (account sender t).frozen ≡ false
      → amount ≤ balance_of sender t
      → balance_of sender t ≤ u64_max
      → balance_of receiver t ≤ u64_max
      → u64_max < balance_of receiver t + amount
      → let (r, t') = apply_transfer store sender receiver amount t in
        (r ≡ ok tt)
        × (balance_of sender t' + balance_of receiver t' + 18446744073709551616
            ≡ balance_of sender t + balance_of receiver t)
  apply_transfer_overflow sender receiver amount t ks kr ne active covered small small' over =
      rw (apply_transfer-eq sender receiver amount t active covered) (
        refl,
        ground (
          arith,
          same_iff sender receiver,
          same_iff receiver receiver,
          same_iff sender sender,
          same_iff receiver sender,
          account-after_credit receiver sender amount (after_debit sender amount t) kr ks,
          account-after_credit receiver receiver amount (after_debit sender amount t) kr kr,
          account-after_debit sender sender amount t ks ks,
          account-after_debit sender receiver amount t ks kr,
        ),
      )
