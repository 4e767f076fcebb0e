-- ===== src/Network/Producer/Execution.antt =====
-- The execution of candidates by protocol/src/network/producer.rs.
use mathlib.Core.Path.{subst}
use nova_protocol.Common.{
  ℕ, suc, ◌+◌, ◌≤◌, ◌≡◌, ◌≢◌, ◌⊎◌, inl, inr, refl, sym, ap, ◌∙◌, String, true, false, List, [], ◌∷◌,
  map, arith, length, All, count_if, Bool-cases, ltb, same_iff, string_key, u64_max,
}
use nova_protocol.Common.Exec.{Result, ok, err}
use nova_protocol.Transaction.{
  Transaction, TransactionType, transfer, credit_request, credit_settlement, token_mint, token_burn,
  confidential_transfer,
}
use nova_protocol.State.{AccountState, AccountStore, unwrap_or_default}
use nova_protocol.State.Transfer.{StateError, account_frozen, insufficient_balance, apply_transfer}
use nova_protocol.State.Transfer.Effect.{account, balance_of, apply_transfer_ok}
use nova_protocol.Network.Producer.{
  BlockProductionError, Executed, record_outcome, state_error, execute_transaction, execute_all,
}

module _ (store : AccountStore) where
  transfer_outcomes :
      (sender receiver : String) (amount : ℕ) (t : store.Tree)
      → ((t' : store.Tree) × (apply_transfer store sender receiver amount t ≡ (ok tt, t')))
        ⊎ ((e : StateError) × (apply_transfer store sender receiver amount t ≡ (err e, t)))
  unfolding apply_transfer
  transfer_outcomes sender receiver amount t =
      let s : AccountState = unwrap_or_default (store.get sender t) in
      elim (Bool-cases s.frozen) [
        | inl f ↦ inr (account_frozen sender, ground (arith, f))
        | inr f ↦ elim (Bool-cases (ltb s.balance amount)) [
          | inl l ↦ inr (insufficient_balance s.balance amount, ground (arith, f, l))
          | inr l ↦ inl ((apply_transfer store sender receiver amount t).1, ground (arith, f, l))
        ]
      ]

  -- A transaction succeeds, or fails and leaves the tree as it was.
  pub outcomes :
      (tx : Transaction) (t : store.Tree)
      → ((t' : store.Tree) × (execute_transaction store tx t ≡ (ok tt, t')))
        ⊎ ((e : BlockProductionError) × (execute_transaction store tx t ≡ (err e, t)))
  unfolding execute_transaction
  outcomes tx t = by_type tx.tx_type refl
    where
      by_type :
          (k : TransactionType)
          → tx.tx_type ≡ k
          → ((t' : store.Tree) × (execute_transaction store tx t ≡ (ok tt, t')))
            ⊎ ((e : BlockProductionError) × (execute_transaction store tx t ≡ (err e, t)))
      by_type transfer q = elim (transfer_outcomes tx.sender tx.receiver tx.amount.value t) [
        | inl (t', r) ↦ inl (t', ground (arith, q, r))
        | inr (e, r) ↦ inr (state_error e, ground (arith, q, r))
      ]
      by_type credit_request q = inl (t, ground (arith, q))
      by_type credit_settlement q = inl (t, ground (arith, q))
      by_type token_mint q = inl (t, ground (arith, q))
      by_type token_burn q = inl (t, ground (arith, q))
      by_type confidential_transfer q = inl (t, ground (arith, q))

  -- Every result of a list is a success, and the results are those of the transactions in order.
  abbrev pub AllSucceed : Executed store → Type 0
  AllSucceed x = All (λ r. r.success ≡ true) x.tx_results

  -- The transactions that succeeded in `x`, executed alone, and the results in `x`.
  abbrev pub Replays : List Transaction → store.Tree → Executed store → Type 0
  Replays txs t x =
      let y : Executed store = execute_all store x.successful_txs t in
      (y.successful_txs ≡ x.successful_txs)
      × (y.tree ≡ x.tree)
      × AllSucceed y
      × (map (λ r. r.tx_id) x.tx_results ≡ map (λ tx. tx.id) txs)
      × (count_if (λ r. r.success) x.tx_results ≡ length x.successful_txs)

  step :
      (tx : Transaction) (txs : List Transaction) (t t' : store.Tree)
      (r : Result (Unit {0}) BlockProductionError)
      → execute_transaction store tx t ≡ (r, t')
      → execute_all store (tx ∷ txs) t ≡ record_outcome store tx r (execute_all store txs t')
  unfolding execute_all
  step tx txs t t' r e = ap (λ o. record_outcome store tx o.0 (execute_all store txs o.1)) e

  -- The transactions that succeed, executed alone from the same tree, all succeed again and lead to
  -- the same tree. Each candidate has its result, in order, and as many results are successes as
  -- transactions succeed.
  pub execute_all_lem :
      (txs : List Transaction) (t : store.Tree) → Replays txs t (execute_all store txs t)
  unfolding execute_all
  execute_all_lem [] t = (refl, refl, tt, refl, refl)
  execute_all_lem (tx ∷ txs) t = elim (outcomes tx t) [
    | inl (t', e) ↦
        let x : Executed store = execute_all store txs t' in
        let (succ, tree, all, ids, many) = execute_all_lem txs t' in
        let again = step tx x.successful_txs t t' (ok tt) e in
        subst (Replays (tx ∷ txs) t) (sym (step tx txs t t' (ok tt) e)) (
          ap (λ y. y.successful_txs) again ∙ ap (λ l. tx ∷ l) succ,
          ap (λ y. y.tree) again ∙ tree,
          subst AllSucceed (sym again) (refl, all),
          ap (λ l. tx.id ∷ l) ids,
          ap suc many,
        )
    | inr (b, e) ↦
        let (succ, tree, all, ids, many) = execute_all_lem txs t in
        subst (Replays (tx ∷ txs) t) (sym (step tx txs t t (err b) e))
          (succ, tree, all, ap (λ l. tx.id ∷ l) ids, many)
  ]

  execute-transfer :
      (tx : Transaction) (t : store.Tree)
      → tx.tx_type ≡ transfer
      → let (r, t') = apply_transfer store tx.sender tx.receiver tx.amount.value t in
        r ≡ ok tt → execute_transaction store tx t ≡ (ok tt, t')
  unfolding execute_transaction
  execute-transfer tx t k =
      let (r, t') = apply_transfer store tx.sender tx.receiver tx.amount.value t in
      λ e. ground (arith, k, e)

  -- A transfer between two known accounts that has been executed is executed again, and takes the
  -- amount again, as long as the balance lasts: its nonce is not looked at. Its fee is not taken.
  pub transfer_replays :
      (tx : Transaction) (t : store.Tree)
      → tx.tx_type ≡ transfer
      → store.Known tx.sender
      → store.Known tx.receiver
      → tx.receiver ≢ tx.sender
      → (account store tx.sender t).frozen ≡ false
      → tx.amount.value + tx.amount.value ≤ balance_of store tx.sender t
      → balance_of store tx.sender t ≤ u64_max
      → balance_of store tx.receiver t + (tx.amount.value + tx.amount.value) ≤ u64_max
      → let x = execute_all store (tx ∷ tx ∷ []) t in
        (x.successful_txs ≡ tx ∷ tx ∷ [])
        × (balance_of store tx.sender x.tree + (tx.amount.value + tx.amount.value)
            ≡ balance_of store tx.sender t)
        × (balance_of store tx.receiver x.tree
            ≡ balance_of store tx.receiver t + (tx.amount.value + tx.amount.value))
  unfolding execute_all
  transfer_replays tx t k ks kr ne active covered small fits =
      let a = tx.amount.value in
      let t₁ : store.Tree = (apply_transfer store tx.sender tx.receiver a t).1 in
      let t₂ : store.Tree = (apply_transfer store tx.sender tx.receiver a t₁).1 in
      let own = same_iff tx.sender tx.sender in
      let own' = same_iff tx.receiver tx.receiver in
      let other = same_iff tx.sender tx.receiver in
      let other' = same_iff tx.receiver tx.sender in
      let (done₁, effect₁) =
        apply_transfer_ok store tx.sender tx.receiver a t ks kr active (omega (arith, covered))
          small (λ _. omega (arith, fits)) in
      let (s₁, _, rest₁) = effect₁ tx.sender ks in
      let (r₁, _, _) = effect₁ tx.receiver kr in
      let bal_s : balance_of store tx.sender t₁ + a ≡ balance_of store tx.sender t =
        ground (arith, s₁, own, other, ne) in
      let bal_r : balance_of store tx.receiver t₁ ≡ balance_of store tx.receiver t + a =
        ground (arith, r₁, own', other', ne) in
      let (done₂, effect₂) =
        apply_transfer_ok store tx.sender tx.receiver a t₁ ks kr (rest₁.0 ∙ active)
          (omega (arith, covered, bal_s)) (omega (arith, small, bal_s))
          (λ _. omega (arith, fits, bal_r)) in
      let (s₂, _, _) = effect₂ tx.sender ks in
      let (r₂, _, _) = effect₂ tx.receiver kr in
      let bal_s₂ : balance_of store tx.sender t₂ + a ≡ balance_of store tx.sender t₁ =
        ground (arith, s₂, own, other, ne) in
      let bal_r₂ : balance_of store tx.receiver t₂ ≡ balance_of store tx.receiver t₁ + a =
        ground (arith, r₂, own', other', ne) in
      let e₁ = execute-transfer tx t k done₁ in
      let e₂ = execute-transfer tx t₁ k done₂ in
      let g =
        step tx (tx ∷ []) t t₁ (ok tt) e₁
        ∙ ap (record_outcome store tx (ok tt)) (step tx [] t₁ t₂ (ok tt) e₂) in
      (
        ap (λ x. x.successful_txs) g,
        ap (λ x. balance_of store tx.sender x.tree + (a + a)) g ∙ omega (arith, bal_s, bal_s₂),
        ap (λ x. balance_of store tx.receiver x.tree) g ∙ omega (arith, bal_r, bal_r₂),
      )
