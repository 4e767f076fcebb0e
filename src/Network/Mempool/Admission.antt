-- ===== src/Network/Mempool/Admission.antt =====
-- What `add` of protocol/src/network/mempool.rs promises of the pending transactions alone.
use mathlib.Core.Path.{subst}
use native.Mathlib.Nat.{div-le_self}
use nova_protocol.Common.{
  ℕ, ◌≤◌, ◌<◌, ◌≡◌, inl, inr, refl, sym, String, Bool, true, false, none, some, arith, ltb, leb,
  string_key, length, Bool-cases, u64_max,
}
use nova_protocol.Common.Dict
use nova_protocol.Common.Dict.{Dict, insert, erase, lookup, lookup_or_zero, lookup-erase}
use nova_protocol.Common.Exec.{Result, ok, err}
use nova_protocol.Transaction.{Transaction, Primitives, fee_per_byte}
use nova_protocol.Network.Mempool.{
  Mempool, MempoolConfig, MempoolEntry, MempoolError, duplicate_transaction, fee_too_low,
  sender_limit_exceeded, mempool_full, entry, try_evict_lowest, insert_entry, make_room, add,
}
use nova_protocol.Network.Mempool.Counts.{length-erase, pending-erase}
use nova_protocol.Network.Mempool.Pool.{pending}
use nova_protocol.Network.Mempool.Operations.{
  IsValid, without, without-IsValid, insert_entry-IsValid,
}
use nova_protocol.Network.Mempool.Eviction.{AllPay, Evicts, none_lower, lowest, evicts}

module _ (p : Primitives) where
  fee_per_byte-le : (tx : Transaction) → fee_per_byte p tx ≤ tx.fee
  unfolding fee_per_byte
  fee_per_byte-le tx = ground (arith, div-le_self tx.fee (p.json_size tx))

  -- What a call of `add` with a transaction may do to a map of pending transactions: its answer and
  -- the map after it.
  pub data Admits (now : ℕ) (tx : Transaction) (c : MempoolConfig) (d : Dict String MempoolEntry)
      : Result (Unit {0}) MempoolError → Dict String MempoolEntry → Type 0 where
    duplicate : Dict.contains tx.id d ≡ true → Admits now tx c d (err duplicate_transaction) d
    cheap :
        Dict.contains tx.id d ≡ false
        → tx.fee < c.min_fee
        → Admits now tx c d (err (fee_too_low c.min_fee tx.fee)) d
    crowded :
        Dict.contains tx.id d ≡ false
        → c.min_fee ≤ tx.fee
        → c.max_per_sender ≤ pending tx.sender d
        → Admits now tx c d (err (sender_limit_exceeded tx.sender c.max_per_sender)) d
    full :
        Dict.contains tx.id d ≡ false
        → c.min_fee ≤ tx.fee
        → pending tx.sender d < c.max_per_sender
        → length d ≡ c.max_size
        → AllPay p (fee_per_byte p tx) d
        → Admits now tx c d (err (mempool_full c.max_size)) d
    admitted :
        Dict.contains tx.id d ≡ false
        → c.min_fee ≤ tx.fee
        → pending tx.sender d < c.max_per_sender
        → length d < c.max_size
        → Admits now tx c d (ok tt) (insert tx.id (entry p now tx) d)
    outbid :
        (e : MempoolEntry)
        → Dict.contains tx.id d ≡ false
        → c.min_fee ≤ tx.fee
        → pending tx.sender d < c.max_per_sender
        → length d ≡ c.max_size
        → lookup e.transaction.id d ≡ some e
        → e.fee_per_byte < fee_per_byte p tx
        → AllPay p e.fee_per_byte d
        → Admits now tx c d (ok tt) (insert tx.id (entry p now tx) (erase e.transaction.id d))

  -- A call of `add` on `m` came out as it may.
  abbrev Comes : ℕ → Transaction → Mempool → Result (Unit {0}) MempoolError × Mempool → Type 0
  Comes now tx m (r, m') =
      Admits now tx m.config m.transactions r m'.transactions
      × IsValid p m'
      × (m'.config ≡ m.config)

  module _ (now : ℕ) (tx : Transaction) (m : Mempool) where
    density_fits : tx.fee ≤ u64_max → fee_per_byte p tx ≤ u64_max
    density_fits fits = let h = fee_per_byte-le tx in omega (arith, h)

    unlisted :
        (d : Dict String MempoolEntry) → Dict.contains tx.id d ≡ false → lookup tx.id d ≡ none
    unfolding Dict.contains
    unlisted d h = ground arith

    Comes-admitted :
        IsValid p m
        → tx.fee ≤ u64_max
        → Dict.contains tx.id m.transactions ≡ false
        → m.config.min_fee ≤ tx.fee
        → pending tx.sender m.transactions < m.config.max_per_sender
        → length m.transactions < m.config.max_size
        → Comes now tx m (ok tt, insert_entry (entry p now tx) m)
    unfolding insert_entry
    Comes-admitted v fits new pays below room = (
      admitted new pays below room,
      insert_entry-IsValid p (entry p now tx) m v (unlisted m.transactions new) refl
          (density_fits fits) room below,
      refl,
    )

    Comes-outbid :
        (e : MempoolEntry)
        → IsValid p m
        → tx.fee ≤ u64_max
        → Dict.contains tx.id m.transactions ≡ false
        → m.config.min_fee ≤ tx.fee
        → pending tx.sender m.transactions < m.config.max_per_sender
        → length m.transactions ≡ m.config.max_size
        → lookup e.transaction.id m.transactions ≡ some e
        → e.fee_per_byte < fee_per_byte p tx
        → AllPay p e.fee_per_byte m.transactions
        → Comes now tx m (ok tt, insert_entry (entry p now tx) (without p e m))
    unfolding insert_entry
    Comes-outbid e v fits new pays below size found low least =
        let d = m.transactions in
        let gone : lookup tx.id (erase e.transaction.id d) ≡ none =
          let l = lookup-erase tx.id e.transaction.id d in
          let n = unlisted d new in ground (arith, l, n) in
        let shorter = length-erase e d v.keys_once found in
        let fewer = pending-erase e d tx.sender v.keys_once found in
        (
          outbid e new pays below size found low least,
          insert_entry-IsValid p (entry p now tx) (without p e m) (without-IsValid p e m v found)
              gone refl (density_fits fits) (omega (arith, shorter, size))
              (ground (arith, fewer, below)),
          refl,
        )

    Comes-crowded_out :
        (x : Bool × Mempool)
        → Evicts p (fee_per_byte p tx) m x
        → try_evict_lowest (fee_per_byte p tx) m ≡ x
        → IsValid p m
        → tx.fee ≤ u64_max
        → Dict.contains tx.id m.transactions ≡ false
        → m.config.min_fee ≤ tx.fee
        → pending tx.sender m.transactions < m.config.max_per_sender
        → m.config.max_size ≤ length m.transactions
        → Comes now tx m (add p now tx m)
    unfolding add make_room
    Comes-crowded_out x (none_lower all) q v fits new pays below over =
        let size : length m.transactions ≡ m.config.max_size =
          let s = v.in_size in omega (arith, over, s) in
        let c = v.counts tx.sender in
        let g : add p now tx m ≡ (err (mempool_full m.config.max_size), m) =
          ground (arith, q, new, pays, below, over, c) in
        subst (Comes now tx m) (sym g) (full new pays below size all, v, refl)
    Comes-crowded_out x (lowest e found low least) q v fits new pays below over =
        let size : length m.transactions ≡ m.config.max_size =
          let s = v.in_size in omega (arith, over, s) in
        let c = v.counts tx.sender in
        let g : add p now tx m ≡ (ok tt, insert_entry (entry p now tx) (without p e m)) =
          ground (arith, q, new, pays, below, over, c) in
        subst (Comes now tx m) (sym g) (Comes-outbid e v fits new pays below size found low least)

  -- `add` does to the pending transactions of a valid pool what their map alone decides: a
  -- transaction that is pending, too cheap or from a crowded sender is refused, in this order; a
  -- full pool refuses one that does not outbid the lowest density, and otherwise gives up an entry
  -- of the lowest density for it. The pool stays valid, with its configuration.
  pub add-Admits :
      (now : ℕ) (tx : Transaction) (m : Mempool)
      → IsValid p m
      → tx.fee ≤ u64_max
      → let (r, m') = add p now tx m in
        Admits now tx m.config m.transactions r m'.transactions
        × IsValid p m'
        × (m'.config ≡ m.config)
  unfolding add make_room
  add-Admits now tx m v fits =
      let d = m.transactions in
      let c = v.counts tx.sender in
      let Goal = Comes now tx m in
      elim (Bool-cases (Dict.contains tx.id d)) [
        | inl old ↦
            let g : add p now tx m ≡ (err duplicate_transaction, m) = ground (arith, old) in
            subst Goal (sym g) (duplicate old, v, refl)
        | inr new ↦ elim (Bool-cases (ltb tx.fee m.config.min_fee)) [
          | inl low ↦
              let g : add p now tx m ≡ (err (fee_too_low m.config.min_fee tx.fee), m) =
                ground (arith, new, low) in
              subst Goal (sym g) (cheap new (ground arith), v, refl)
          | inr high ↦ elim (Bool-cases (leb m.config.max_per_sender (pending tx.sender d))) [
            | inl many ↦
                let g : add p now tx m
                    ≡ (err (sender_limit_exceeded tx.sender m.config.max_per_sender), m) =
                  ground (arith, new, high, many, c) in
                subst Goal (sym g) (crowded new (ground arith) (ground arith), v, refl)
            | inr few ↦ elim (Bool-cases (ltb (length d) m.config.max_size)) [
              | inl room ↦
                  let g : add p now tx m ≡ (ok tt, insert_entry (entry p now tx) m) =
                    ground (arith, new, high, few, c, room) in
                  subst Goal (sym g) (
                    Comes-admitted now tx m v fits new (ground arith) (ground arith) (ground arith))
              | inr over ↦
                  Comes-crowded_out now tx m (try_evict_lowest (fee_per_byte p tx) m)
                    (evicts p (fee_per_byte p tx) m v) refl v fits new (ground arith) (ground arith)
                    (ground arith)
            ]
          ]
        ]
      ]
