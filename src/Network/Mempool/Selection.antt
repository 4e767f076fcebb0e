-- ===== src/Network/Mempool/Selection.antt =====
-- The order in which `select_transactions` of protocol/src/network/mempool.rs gives transactions,
-- and runs of all operations of the pool.
use mathlib.Core.Path.{subst}
use nova_protocol.Common.{
  ℕ, zero, suc, ◌+◌, ◌-◌, ◌≤◌, ◌≡◌, inl, inr, refl, sym, ap, ◌∙◌, String, true, some, List, [], ◌∷◌,
  arith, string_key, length, take, take_all, All-In, All, In, u64_max,
}
use nova_protocol.Common.Dict.{Dict, lookup}
use nova_protocol.Transaction.{Transaction, Primitives, fee_per_byte}
use nova_protocol.Network.Mempool.{
  FeeKey, FeeIndex, Mempool, MempoolConfig, MempoolEntry, new, before, key_of, select,
  select_transactions, add, remove, remove_batch, expire_old, clear,
}
use nova_protocol.Network.Mempool.Index.{IsSorted, before-le}
use nova_protocol.Network.Mempool.Pool.{
  index_of-IsSorted, index_of_back, length-index_of, All-lookup,
}
use nova_protocol.Network.Mempool.Operations.{
  IsEntry, IsValid, own_ids, in_index, new-IsValid, clear-IsValid, remove-IsValid,
  remove_batch-IsValid, expire_old-IsValid,
}
use nova_protocol.Network.Mempool.Admission.{add-Admits}

module _ (p : Primitives) where
  -- The operations that change a pool.
  pub data Call : Type 0 where
    call_add : ℕ → Transaction → Call
    call_remove : String → Call
    call_remove_batch : List String → Call
    call_expire_old : ℕ → Call
    call_clear : Call

  pub apply : Call → Mempool → Mempool
  apply (call_add now tx) m = (add p now tx m).1
  apply (call_remove id) m = (remove id m).1
  apply (call_remove_batch ids) m = remove_batch ids m
  apply (call_expire_old now) m = (expire_old now m).1
  apply call_clear m = clear m

  pub run : List Call → Mempool → Mempool
  run [] m = m
  run (c ∷ cs) m = run cs (apply c m)

  -- The fee of a transaction is a 64-bit number.
  abbrev pub HasWordFee : Call → Type 0
  HasWordFee (call_add now tx) = tx.fee ≤ u64_max
  HasWordFee _ = Unit

  apply-IsValid : (c : Call) (m : Mempool) → HasWordFee c → IsValid p m → IsValid p (apply c m)
  unfolding apply
  apply-IsValid (call_add now tx) m h v = (add-Admits p now tx m v h).1
  apply-IsValid (call_remove id) m h v = remove-IsValid p id m v
  apply-IsValid (call_remove_batch ids) m h v = remove_batch-IsValid p ids m v
  apply-IsValid (call_expire_old now) m h v = expire_old-IsValid p now m v
  apply-IsValid call_clear m h v = clear-IsValid p m v

  run_from : (cs : List Call) (m : Mempool) → All HasWordFee cs → IsValid p m → IsValid p (run cs m)
  unfolding run
  run_from [] m h v = v
  run_from (c ∷ cs) m h v = run_from cs (apply c m) h.1 (apply-IsValid c m h.0 v)

  -- Whatever calls a new pool takes, its fee index holds exactly the keys of its transactions, its
  -- counts are those of its senders, each transaction stands under its own id, and neither the size
  -- nor any sender is over its limit.
  pub run-IsValid :
      (c : MempoolConfig) (cs : List Call)
      → c.max_per_sender ≤ u64_max
      → All HasWordFee cs
      → IsValid p (run cs (new c))
  run-IsValid c cs small h = run_from cs (new c) h (new-IsValid p c small)

  -- No transaction of a list has a lower fee density than one after it.
  abbrev pub FallsInDensity : List Transaction → Type 0
  FallsInDensity [] = Unit
  FallsInDensity (tx ∷ txs) =
      All (λ ty. fee_per_byte p ty ≤ fee_per_byte p tx) txs × FallsInDensity txs

  abbrev IsFound : Dict String MempoolEntry → FeeKey × String → Type 0
  IsFound d x = (e : MempoolEntry) × (lookup x.1 d ≡ some e) × (x.0 ≡ key_of e)

  -- The transactions of an index in its order.
  listed : (d : Dict String MempoolEntry) (r : FeeIndex) → All (IsFound d) r → List Transaction
  listed d [] a = []
  listed d (x ∷ r) ((e, _, _), a) = e.transaction ∷ listed d r a

  select-take :
      (n : ℕ) (d : Dict String MempoolEntry) (r : FeeIndex) (a : All (IsFound d) r)
      → select n r d ≡ take n (listed d r a)
  unfolding select listed
  select-take zero d [] a = refl
  select-take (suc n) d [] a = refl
  select-take zero d (x ∷ r) a = refl
  select-take (suc n) d (x ∷ r) ((e, found, key), a) =
      let rest = select-take n d r a in ground (arith, found, rest)

  length-listed :
      (d : Dict String MempoolEntry) (r : FeeIndex) (a : All (IsFound d) r)
      → length (listed d r a) ≡ length r
  unfolding listed
  length-listed d [] a = refl
  length-listed d (x ∷ r) ((e, _, _), a) = ap suc (length-listed d r a)

  -- The entry that a key stands for has the density that the key inverts.
  key_density :
      (d : Dict String MempoolEntry) (x : FeeKey × String) (e : MempoolEntry)
      → All (IsEntry p) d
      → lookup x.1 d ≡ some e
      → x.0 ≡ key_of e
      → (x.0.inverted_fee + fee_per_byte p e.transaction ≡ u64_max)
  key_density d x e own found key =
      let (_, density, fits) = All-lookup (IsEntry p) x.1 e d own found in
      let i : x.0.inverted_fee ≡ u64_max - e.fee_per_byte = ap (λ k. k.inverted_fee) key in
      omega (arith, i, density, fits)

  listed_below :
      (d : Dict String MempoolEntry) (r : FeeIndex) (a : All (IsFound d) r) (k : FeeKey) (fpb : ℕ)
      → All (IsEntry p) d
      → k.inverted_fee + fpb ≡ u64_max
      → All (λ y. before k y.0 ≡ true) r
      → All (λ ty. fee_per_byte p ty ≤ fpb) (listed d r a)
  unfolding listed
  listed_below d [] a k fpb own e b = tt
  listed_below d (x ∷ r) ((f, found, key), a) k fpb own e b =
      let h = before-le k x.0 b.0 in
      let g = key_density d x f own found key in
      (omega (arith, h, g, e), listed_below d r a k fpb own e b.1)

  listed-FallsInDensity :
      (d : Dict String MempoolEntry) (r : FeeIndex) (a : All (IsFound d) r)
      → All (IsEntry p) d
      → IsSorted r
      → FallsInDensity (listed d r a)
  unfolding listed
  listed-FallsInDensity d [] a own s = tt
  listed-FallsInDensity d (x ∷ r) ((e, found, key), a) own s = (
    listed_below d r a x.0 (fee_per_byte p e.transaction) own (key_density d x e own found key) s.0,
    listed-FallsInDensity d r a own s.1,
  )

  In-listed :
      (d : Dict String MempoolEntry) (r : FeeIndex) (a : All (IsFound d) r) (x : FeeKey × String)
      (e : MempoolEntry)
      → In x r
      → lookup x.1 d ≡ some e
      → In e.transaction (listed d r a)
  unfolding listed
  In-listed d [] a x e m h = absurd m
  In-listed d (y ∷ r) ((f, found, key), a) x e (inl q) h =
      let same : lookup y.1 d ≡ some e = ap (λ y. lookup y.1 d) (sym q) ∙ h in
      let g : e ≡ f = cc in inl (ap (λ e. e.transaction) g)
  In-listed d (y ∷ r) ((f, found, key), a) x e (inr m) h = inr (In-listed d r a x e m h)

  -- From a valid pool `select_transactions` gives the first of all pending transactions in one
  -- order, in which the fee density never rises. A selection with room for all gives each pending
  -- transaction, and as many as there are.
  pub select_transactions_lem :
      (m : Mempool)
      → IsValid p m
      → let all = select_transactions (length m.transactions) m in
        ((n : ℕ) → select_transactions n m ≡ take n all)
        × FallsInDensity all
        × (length all ≡ length m.transactions)
        × ((id : String) (e : MempoolEntry)
            → lookup id m.transactions ≡ some e
            → In e.transaction all)
  unfolding select_transactions
  select_transactions_lem m v =
      let d = m.transactions in
      let a = in_index p m v in
      let ids = own_ids p d v.entries in
      let long : length (listed d m.fee_index a) ≡ length d =
        length-listed d m.fee_index a ∙ ap length v.index ∙ length-index_of d ids v.keys_once in
      let whole : select (length d) m.fee_index d ≡ listed d m.fee_index a =
        select-take (length d) d m.fee_index a
        ∙ take_all (length d) (listed d m.fee_index a) (omega (arith, long)) in
      (
        λ n. select-take n d m.fee_index a ∙ ap (take n) (sym whole),
        subst FallsInDensity (sym whole) (
            listed-FallsInDensity d m.fee_index a v.entries
              (subst IsSorted (sym v.index) (index_of-IsSorted d))),
        ap length whole ∙ long,
        λ id e h.
            let places =
              index_of_back (λ x. In x m.fee_index) d ids v.keys_once
                (subst (All (λ x. In x m.fee_index)) v.index (All-In m.fee_index)) in
            let place : In (key_of e, id) m.fee_index =
              All-lookup (λ x. In (key_of x.1, x.0) m.fee_index) id e d places h in
            subst (In e.transaction) (sym whole)
              (In-listed d m.fee_index a (key_of e, id) e place h),
      )
