-- ===== src/Network/Mempool/Eviction.antt =====
-- Which entry `try_evict_lowest` of protocol/src/network/mempool.rs gives up.
use mathlib.Core.Path.{subst}
use nova_protocol.Common.{
  ℕ, ◌-◌, ◌≤◌, ◌<◌, ◌≡◌, inl, inr, sym, ap, ◌∙◌, String, Bool, true, false, none, some, [], ◌∷◌,
  arith, leb, string_key, All, All-map, Bool-cases, Option-cases, u64_max,
}
use nova_protocol.Common.Dict.{Dict, lookup}
use nova_protocol.Transaction.{Primitives}
use nova_protocol.Network.Mempool.{
  FeeKey, Mempool, MempoolEntry, key_of, last_entry, evict, try_evict_lowest,
}
use nova_protocol.Network.Mempool.Index.{last_entry_lem, last_entry_none, last_entry_lowest}
use nova_protocol.Network.Mempool.Pool.{index_of, index_of-IsSorted, index_of_back, All-lookup}
use nova_protocol.Network.Mempool.Operations.{IsEntry, IsValid, own_ids, without, in_index}

module _ (p : Primitives) where
  -- No pending transaction has a lower fee density than `fpb`.
  abbrev pub AllPay : ℕ → Dict String MempoolEntry → Type 0
  AllPay fpb d = All (λ x. fpb ≤ x.1.fee_per_byte) d

  -- An eviction finds the entry of the lowest density, or there is none that is outbid.
  pub data Evicts (fpb : ℕ) (m : Mempool) : Bool × Mempool → Type 0 where
    none_lower : AllPay fpb m.transactions → Evicts fpb m (false, m)
    lowest :
        (e : MempoolEntry)
        → lookup e.transaction.id m.transactions ≡ some e
        → e.fee_per_byte < fpb
        → AllPay e.fee_per_byte m.transactions
        → Evicts fpb m (true, without p e m)

  lowest-AllPay :
      (m : Mempool) (k : FeeKey) (id : String)
      → IsValid p m
      → last_entry m.fee_index ≡ some (k, id)
      → AllPay (u64_max - k.inverted_fee) m.transactions
  lowest-AllPay m k id v q =
      let s = own_ids p m.transactions v.entries in
      let q' : last_entry (index_of m.transactions) ≡ some (k, id) =
        ap last_entry (sym v.index) ∙ q in
      let below =
        index_of_back (λ y. y.0.inverted_fee ≤ k.inverted_fee) m.transactions s v.keys_once
          (last_entry_lowest (k, id) (index_of m.transactions) (index_of-IsSorted m.transactions)
            q') in
      zip m.transactions v.entries below
    where
      zip :
          (d : Dict String MempoolEntry)
          → All (IsEntry p) d
          → All (λ x. u64_max - x.1.fee_per_byte ≤ k.inverted_fee) d
          → AllPay (u64_max - k.inverted_fee) d
      zip [] a b = tt
      zip (x ∷ d) (own, a) (here, b) =
          (let (_, _, fits) = own in omega (arith, here, fits), zip d a b)

  evict-without :
      (e : MempoolEntry) (k : FeeKey) (id : String) (m : Mempool)
      → lookup id m.transactions ≡ some e
      → e.transaction.id ≡ id
      → k ≡ key_of e
      → evict k id m ≡ without p e m
  unfolding evict
  evict-without e k id m found own q =
      let at_own : evict (key_of e) e.transaction.id m ≡ without p e m =
        let found' : lookup e.transaction.id m.transactions ≡ some e =
          ap (λ i. lookup i m.transactions) own ∙ found in
        ground (arith, found') in
      ap (λ k. evict k id m) q ∙ ap (λ i. evict (key_of e) i m) (sym own) ∙ at_own

  pub evicts : (fpb : ℕ) (m : Mempool) → IsValid p m → Evicts fpb m (try_evict_lowest fpb m)
  unfolding try_evict_lowest
  evicts fpb m v = elim (Option-cases (last_entry m.fee_index)) [
    | inl q ↦
        let g : try_evict_lowest fpb m ≡ (false, m) = ground (arith, q) in
        let q' : last_entry (index_of m.transactions) ≡ none = ap last_entry (sym v.index) ∙ q in
        subst (Evicts fpb m) (sym g) (
          none_lower (
            All-map (λ _. ⊥) (λ x. fpb ≤ x.1.fee_per_byte) m.transactions (λ x n. absurd n)
              (index_of_back (λ _. ⊥) m.transactions (own_ids p m.transactions v.entries)
                v.keys_once (last_entry_none (λ _. ⊥) (index_of m.transactions) q'))))
    | inr ((k, id), q) ↦
        let (e, found, key) =
          last_entry_lem
            (λ x. (e : MempoolEntry) × (lookup x.1 m.transactions ≡ some e) × (x.0 ≡ key_of e))
            (k, id) m.fee_index (in_index p m v) q in
        let (own, _, fits) = All-lookup (IsEntry p) id e m.transactions v.entries found in
        let density : u64_max - k.inverted_fee ≡ e.fee_per_byte =
          let i : k.inverted_fee ≡ u64_max - e.fee_per_byte = ap (λ k. k.inverted_fee) key in
          omega (arith, i, fits) in
        let least : AllPay e.fee_per_byte m.transactions =
          rw density at (lowest-AllPay m k id v q) in
        elim (Bool-cases (leb fpb (u64_max - k.inverted_fee))) [
          | inl t ↦
              let g : try_evict_lowest fpb m ≡ (false, m) = ground (arith, q, t) in
              let low : fpb ≤ e.fee_per_byte = ground (arith, t, density) in
              subst (Evicts fpb m) (sym g) (
                none_lower (
                  All-map (λ x. e.fee_per_byte ≤ x.1.fee_per_byte) (λ x. fpb ≤ x.1.fee_per_byte)
                    m.transactions (λ x h. omega (arith, h, low)) least))
          | inr t ↦
              let g : try_evict_lowest fpb m ≡ (true, evict k id m) = ground (arith, q, t) in
              let w : evict k id m ≡ without p e m = evict-without e k id m found own key in
              let low : e.fee_per_byte < fpb = ground (arith, t, density) in
              let found' : lookup e.transaction.id m.transactions ≡ some e =
                ap (λ i. lookup i m.transactions) own ∙ found in
              subst (Evicts fpb m) (sym (g ∙ ap (λ w. (true, w)) w)) (lowest e found' low least)
        ]
  ]
