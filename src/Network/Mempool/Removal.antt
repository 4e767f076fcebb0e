-- ===== src/Network/Mempool/Removal.antt =====
-- What `remove` and `remove_batch` of protocol/src/network/mempool.rs leave in the pool.
use nova_protocol.Common.{
  ◌≡◌, ◌≢◌, ◌∙◌, inl, inr, refl, String, none, List, [], ◌∷◌, arith, ◌=?◌, same_iff, string_key,
  All, Option-cases, if◌then◌else◌, ap,
}
use nova_protocol.Common.Dict.{lookup, lookup-erase}
use nova_protocol.Network.Mempool.{Mempool, remove, remove_batch, remove_from_indices}

lookup-remove :
    (j id : String) (m : Mempool)
    → lookup j (remove id m).1.transactions ≡ (if j =? id then none else lookup j m.transactions)
unfolding remove remove_from_indices
lookup-remove j id m =
    let same = same_iff j id in
    let gone = lookup-erase j id m.transactions in
    elim (Option-cases (lookup id m.transactions)) [
      | inl q ↦
          let at : j ≡ id → lookup j m.transactions ≡ none =
            λ e. ap (λ j. lookup j m.transactions) e ∙ q in
          ground (arith, q, same, at)
      | inr (e, q) ↦ ground (arith, q, gone)
    ]

pub lookup-remove_batch_other :
    (j : String) (ids : List String) (m : Mempool)
    → All (λ id. j ≢ id) ids
    → lookup j (remove_batch ids m).transactions ≡ lookup j m.transactions
unfolding remove_batch
lookup-remove_batch_other j [] m a = refl
lookup-remove_batch_other j (id ∷ ids) m a =
    lookup-remove_batch_other j ids (remove id m).1 a.1
    ∙ ground (arith, lookup-remove j id m, same_iff j id, a.0)

gone_stays :
    (j : String) (ids : List String) (m : Mempool)
    → lookup j m.transactions ≡ none
    → lookup j (remove_batch ids m).transactions ≡ none
unfolding remove_batch
gone_stays j [] m h = h
gone_stays j (id ∷ ids) m h =
    gone_stays j ids (remove id m).1 (ground (arith, lookup-remove j id m, h))

pub lookup-remove_batch :
    (ids : List String) (m : Mempool)
    → All (λ id. lookup id (remove_batch ids m).transactions ≡ none) ids
unfolding remove_batch
lookup-remove_batch [] m = tt
lookup-remove_batch (id ∷ ids) m = (
  gone_stays id ids (remove id m).1 (ground (arith, lookup-remove id id m, same_iff id id)),
  lookup-remove_batch ids (remove id m).1,
)
