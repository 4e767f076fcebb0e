-- ===== src/Network/Mempool/Operations.antt =====
-- What the operations of protocol/src/network/mempool.rs keep and what `add` answers.
use nova_protocol.Common.{
  ℕ, ◌+◌, ◌≤◌, ◌<◌, ◌≡◌, ◌⊎◌, inl, inr, refl, sym, ap, ◌∙◌, String, none, some, List, [], ◌∷◌,
  arith, same_iff, string_key, length, All, All-map, Option-cases, u64_max, wrap64,
}
use nova_protocol.Common.Dict.{erase, lookup, lookup_or_zero, lookup_or_zero-insert}
use nova_protocol.Transaction.{Primitives, fee_per_byte}
use nova_protocol.Network.Mempool.{
  Mempool, MempoolConfig, MempoolEntry, new, key_of, decrement_sender_count, remove_from_indices,
  remove, remove_batch, insert_entry, place, take_out, clear, expire_old,
}
use nova_protocol.Network.Mempool.Counts.{
  length-erase, pending-erase, length-insert, pending-insert,
}
use nova_protocol.Network.Mempool.Pool.{
  HasKeysOnce, HasOwnId, index_of, pending, All-index_of, index_of-insert, index_of-erase,
  insert-HasKeysOnce, All-insert, All-erase, All-lookup, all_found, erase-HasKeysOnce,
  lookup_or_zero-decrement_sender_count,
}

module _ (p : Primitives) where
  -- An entry stands under its own id, with the fee density of its transaction.
  abbrev pub IsEntry : String × MempoolEntry → Type 0
  IsEntry x =
      HasOwnId x
      × (x.1.fee_per_byte ≡ fee_per_byte p x.1.transaction)
      × (x.1.fee_per_byte ≤ u64_max)

  -- The pool keeps its limits, and the index and the counts are those of its transactions.
  pub record IsValid (m : Mempool) : Type 0 where
    pub keys_once : HasKeysOnce m.transactions
    pub entries : All IsEntry m.transactions
    pub index : m.fee_index ≡ index_of m.transactions
    pub counts : (s : String) → lookup_or_zero s m.sender_counts ≡ pending s m.transactions
    pub in_size : length m.transactions ≤ m.config.max_size
    pub in_sender_limit : (s : String) → pending s m.transactions ≤ m.config.max_per_sender
    pub limit_fits : m.config.max_per_sender ≤ u64_max

  pub own_ids : (d : List (String × MempoolEntry)) → All IsEntry d → All HasOwnId d
  own_ids d a = All-map IsEntry HasOwnId d (λ x h. h.0) a

  pub new-IsValid : (c : MempoolConfig) → c.max_per_sender ≤ u64_max → IsValid (new c)
  unfolding lookup_or_zero lookup index_of
  new-IsValid c h = record {
    keys_once = tt;
    entries = tt;
    index = refl;
    counts = λ s. refl;
    in_size = omega arith;
    in_sender_limit = λ s. omega arith;
    limit_fits = h;
  }

  pub clear-IsValid : (m : Mempool) → IsValid m → IsValid (clear m)
  clear-IsValid m w =
      let v = new-IsValid m.config w.limit_fits in
      record {
        keys_once = v.keys_once;
        entries = v.entries;
        index = v.index;
        counts = v.counts;
        in_size = v.in_size;
        in_sender_limit = v.in_sender_limit;
        limit_fits = v.limit_fits;
      }

  -- The pool without one entry, as `remove` and an eviction leave it.
  abbrev pub without : MempoolEntry → Mempool → Mempool
  without e m = record m {
    transactions = erase e.transaction.id m.transactions;
    fee_index = take_out (key_of e) m.fee_index;
    sender_counts = decrement_sender_count e.transaction.sender m.sender_counts;
  }

  pub without-IsValid :
      (e : MempoolEntry) (m : Mempool)
      → IsValid m
      → lookup e.transaction.id m.transactions ≡ some e
      → IsValid (without e m)
  without-IsValid e m v h =
      let d = m.transactions in
      let u = v.keys_once in
      record {
        keys_once = erase-HasKeysOnce e.transaction.id d u;
        entries = All-erase IsEntry e.transaction.id d v.entries;
        index =
            ap (take_out (key_of e)) v.index ∙ sym (index_of-erase e d (own_ids d v.entries) u h);
        counts = λ s. ground (
          arith,
          lookup_or_zero-decrement_sender_count s e.transaction.sender m.sender_counts,
          v.counts s,
          pending-erase e d s u h,
          same_iff s e.transaction.sender,
          same_iff e.transaction.sender s,
        );
        in_size = omega (arith, length-erase e d u h, v.in_size);
        in_sender_limit = λ s. ground (arith, pending-erase e d s u h, v.in_sender_limit s);
        limit_fits = v.limit_fits;
      }

  pub insert_entry-IsValid :
      (e : MempoolEntry) (m : Mempool)
      → IsValid m
      → lookup e.transaction.id m.transactions ≡ none
      → e.fee_per_byte ≡ fee_per_byte p e.transaction
      → e.fee_per_byte ≤ u64_max
      → length m.transactions < m.config.max_size
      → pending e.transaction.sender m.transactions < m.config.max_per_sender
      → IsValid (insert_entry e m)
  unfolding insert_entry
  insert_entry-IsValid e m v h density fits room below =
      let d = m.transactions in
      let sender = e.transaction.sender in
      record {
        keys_once = insert-HasKeysOnce e d h v.keys_once;
        entries = All-insert e IsEntry d (refl, density, fits) v.entries;
        index =
            ap (place (key_of e) e.transaction.id) v.index
            ∙ sym (index_of-insert e d (own_ids d v.entries) v.keys_once h);
        counts = λ s. ground (
          arith,
          lookup_or_zero-insert s sender (wrap64 (lookup_or_zero sender m.sender_counts + 1))
              m.sender_counts,
          v.counts s,
          v.counts sender,
          v.limit_fits,
          pending-insert e d s h,
          same_iff s sender,
          same_iff sender s,
        );
        in_size = omega (arith, length-insert e d h);
        in_sender_limit =
            λ s. ground (arith, pending-insert e d s h, v.in_sender_limit s, same_iff sender s);
        limit_fits = v.limit_fits;
      }

  -- `remove` finds the entry of an id, if there is one, and takes it out of all indices.
  pub remove_lem :
      (id : String) (m : Mempool)
      → IsValid m
      → ((lookup id m.transactions ≡ none) × (remove id m ≡ (none, m)))
        ⊎ ((e : MempoolEntry) × (lookup id m.transactions ≡ some e)
            × (e.transaction.id ≡ id)
            × (remove id m ≡ (some e.transaction, without e m)))
  unfolding remove remove_from_indices
  remove_lem id m v = elim (Option-cases (lookup id m.transactions)) [
    | inl q ↦ inl (q, ground (arith, q))
    | inr (e, q) ↦
        let own = (All-lookup IsEntry id e m.transactions v.entries q).0 in
        let out : Mempool =
          remove_from_indices e (record m { transactions = erase id m.transactions }) in
        let taken : remove id m ≡ (some e.transaction, out) = ground (arith, q) in
        inr (
          e,
          q,
          own,
          taken
              ∙ ap
                  (λ i. (
                    some e.transaction,
                    remove_from_indices e (record m { transactions = erase i m.transactions }),
                  ))
                  (sym own),
        )
  ]

  pub remove-IsValid : (id : String) (m : Mempool) → IsValid m → IsValid (remove id m).1
  remove-IsValid id m v = elim (remove_lem id m v) [
    | inl (_, q) ↦ rw q v
    | inr (e, found, own, q) ↦
        rw q (without-IsValid e m v (ap (λ i. lookup i m.transactions) own ∙ found))
  ]

  pub remove_batch-IsValid :
      (ids : List String) (m : Mempool) → IsValid m → IsValid (remove_batch ids m)
  unfolding remove_batch
  remove_batch-IsValid [] m v = v
  remove_batch-IsValid (id ∷ ids) m v =
      remove_batch-IsValid ids (remove id m).1 (remove-IsValid id m v)

  pub expire_old-IsValid : (now : ℕ) (m : Mempool) → IsValid m → IsValid (expire_old now m).1
  unfolding expire_old
  expire_old-IsValid now m v = remove_batch-IsValid _ m v

  -- Where each entry of an index comes from.
  pub in_index :
      (m : Mempool)
      → IsValid m
      → All
          (λ x. (e : MempoolEntry) × (lookup x.1 m.transactions ≡ some e) × (x.0 ≡ key_of e))
          m.fee_index
  in_index m v = rw v.index (
      All-index_of
        (λ x. (e : MempoolEntry) × (lookup x.1 m.transactions ≡ some e) × (x.0 ≡ key_of e))
        m.transactions
        (All-map (λ x. lookup x.0 m.transactions ≡ some x.1)
          (λ x. (e : MempoolEntry) × (lookup x.0 m.transactions ≡ some e) × (key_of x.1 ≡ key_of e))
          m.transactions (λ x h. (x.1, h, refl)) (all_found m.transactions v.keys_once)))
