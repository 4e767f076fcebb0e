-- ===== src/Database/Blocks.antt =====
-- Blocks in the database of protocol/src/storage/db.rs.
use mathlib.Core.Path.{subst}
use nova_protocol.Common.{
  ℕ, ◌≡◌, ◌≢◌, inl, inr, refl, sym, ap, ◌∙◌, String, true, false, some, List, [], ◌∷◌, map, arith,
  same_iff, string_key, nat_key, bits_key, All, In, IsDistinct, Option-cases,
}
use nova_protocol.Common.Dict.{Dict, insert, lookup, lookup-insert}
use nova_protocol.Common.Exec.{Result, ok, err}
use nova_protocol.Transaction.{Transaction}
use nova_protocol.Blocks.{Block}
use nova_protocol.Database.{
  Codec, IsLawful, DbError, sled_error, NovaDb, tx_batch, apply_batch, put_block, get_block,
  get_block_by_hash, get_transaction, get_latest_block_height,
}

others :
    (id : String) (txs : List Transaction)
    → All (λ j. id ≢ j) (map (λ t. t.id) txs)
    → All (λ t. id ≢ t.id) txs
others id [] a = tt
others id (tx ∷ txs) a = (a.0, others id txs a.1)

module _ (c : Codec) where
  lookup-apply_batch_other :
      (id : String) (batch d : Dict String c.Encoded)
      → All (λ x. id ≢ x.0) batch
      → lookup id (apply_batch c batch d) ≡ lookup id d
  unfolding apply_batch
  lookup-apply_batch_other id [] d a = refl
  lookup-apply_batch_other id ((k, x) ∷ rest) d a =
      lookup-apply_batch_other id rest (insert k x d) a.1
      ∙ ground (arith, lookup-insert id k x d, same_iff id k, a.0)

  batch_ids :
      (id : String) (txs : List Transaction) (batch : Dict String c.Encoded)
      → tx_batch c txs ≡ some batch
      → All (λ tx. id ≢ tx.id) txs
      → All (λ x. id ≢ x.0) batch
  unfolding tx_batch
  batch_ids id [] batch h a = let q : [] ≡ batch = cc in subst (All (λ x. id ≢ x.0)) q tt
  batch_ids id (tx ∷ txs) batch h a = elim (Option-cases (c.from_transaction tx)) [
    | inl q ↦ absurd (ground (arith, q))
    | inr (x, q) ↦ elim (Option-cases (tx_batch c txs)) [
      | inl r ↦ absurd (ground (arith, q, r))
      | inr (rest, r) ↦
          let e : (tx.id, x) ∷ rest ≡ batch = ground (arith, q, r) in
          subst (All (λ x. id ≢ x.0)) e (a.0, batch_ids id txs rest r a.1)
    ]
  ]

  -- After the batch of transactions with different ids, each is found under its id.
  batch_found :
      (tx : Transaction) (txs : List Transaction) (batch d : Dict String c.Encoded)
      → IsLawful c
      → tx_batch c txs ≡ some batch
      → IsDistinct (map (λ tx. tx.id) txs)
      → In tx txs
      → (x : c.Encoded) × (lookup tx.id (apply_batch c batch d) ≡ some x)
        × (c.to_transaction x ≡ some tx)
  unfolding tx_batch apply_batch
  batch_found tx [] batch d law h u m = absurd m
  batch_found tx (ty ∷ txs) batch d law h u m = elim (Option-cases (c.from_transaction ty)) [
    | inl q ↦ absurd (ground (arith, q))
    | inr (x, q) ↦ elim (Option-cases (tx_batch c txs)) [
      | inl r ↦ absurd (ground (arith, q, r))
      | inr (rest, r) ↦
          let e : batch ≡ (ty.id, x) ∷ rest = ground (arith, q, r) in
          elim m [
            | inl same ↦
                let s : tx.id ≡ ty.id = ap (λ t. t.id) same in
                let l = lookup-insert tx.id ty.id x d in
                let o = lookup-apply_batch_other tx.id rest (insert ty.id x d) (
                  batch_ids tx.id txs rest r (
                    others tx.id txs
                      (subst (λ i. All (λ j. i ≢ j) (map (λ t. t.id) txs)) (sym s) u.0))) in
                (
                  x,
                  ap (λ b. lookup tx.id (apply_batch c b d)) e
                      ∙ o
                      ∙ ground (arith, l, s, same_iff tx.id ty.id),
                  law.transaction_back ty x q ∙ ap some (sym same),
                )
            | inr later ↦
                let (y, l, t) = batch_found tx txs rest (insert ty.id x d) law r u.1 later in
                (y, ap (λ b. lookup tx.id (apply_batch c b d)) e ∙ l, t)
          ]
    ]
  ]

  abbrev stored : Block → c.Encoded → Dict String c.Encoded → NovaDb c.Encoded → NovaDb c.Encoded
  stored b bytes batch db = record db {
    blocks = insert b.header.height bytes db.blocks;
    block_hashes = insert b.header.hash b.header.height db.block_hashes;
    transactions = apply_batch c batch db.transactions;
    latest_height = some b.header.height;
  }

  -- What can be read after a block was written to `db`, from the answer and the database after it.
  abbrev pub IsReadBack :
      Block → NovaDb c.Encoded → Result (Unit {0}) DbError × NovaDb c.Encoded → Type 0
  IsReadBack b db (r, db') =
      (r ≡ ok tt)
      × (get_block c b.header.height db' ≡ (ok (some b), db'))
      × (get_block_by_hash c b.header.hash db' ≡ (ok (some b), db'))
      × (get_latest_block_height db' ≡ (ok (some b.header.height), db'))
      × ((h : ℕ) → h ≢ b.header.height → (get_block c h db').0 ≡ (get_block c h db).0)
      × (IsDistinct (map (λ tx. tx.id) b.transactions)
          → (tx : Transaction) → In tx b.transactions
          → get_transaction c tx.id db' ≡ (ok (some tx), db'))

  stored-IsReadBack :
      (b : Block) (bytes : c.Encoded) (batch : Dict String c.Encoded) (db : NovaDb c.Encoded)
      → IsLawful c
      → db.faults ≡ []
      → c.from_block b ≡ some bytes
      → tx_batch c b.transactions ≡ some batch
      → IsReadBack b db (ok tt, stored b bytes batch db)
  unfolding get_block get_block_by_hash get_latest_block_height get_transaction
  stored-IsReadBack b bytes batch db law calm h t =
      let back = law.block_back b bytes h in
      let k = b.header.height in
      let l = lookup-insert k k bytes db.blocks in
      let m = lookup-insert b.header.hash b.header.hash k db.block_hashes in
      let s = same_iff b.header.hash b.header.hash in
      (
        refl,
        ground (arith, calm, l, back),
        ground (arith, calm, l, back, m, s),
        ground (arith, calm),
        λ h n. let o = lookup-insert h k bytes db.blocks in ground (arith, calm, o, n),
        λ u tx m.
            let (x, found, out) = batch_found tx b.transactions batch db.transactions law t u m in
            ground (arith, calm, found, out),
      )

  -- Where every call of sled succeeds and the block can be serialised, what `put_block` stores is
  -- read back: the block by its height and by its hash, each transaction by its id if the ids
  -- differ, and the height as the latest. Blocks of other heights stay as they were.
  pub get_block-put_block :
      (b : Block) (bytes : c.Encoded) (batch : Dict String c.Encoded) (db : NovaDb c.Encoded)
      → IsLawful c
      → db.faults ≡ []
      → c.from_block b ≡ some bytes
      → tx_batch c b.transactions ≡ some batch
      → IsReadBack b db (put_block c b db)
  unfolding put_block
  get_block-put_block b bytes batch db law calm h t =
      let g : put_block c b db ≡ (ok tt, stored b bytes batch db) = ground (arith, calm, h, t) in
      subst (IsReadBack b db) (sym g) (stored-IsReadBack b bytes batch db law calm h t)

  -- Where the second call of sled fails, the call returns an error, but the block can be read by
  -- its height, while its hash and the latest height are as before: the writes are not one step.
  pub put_block_partial :
      (b : Block) (bytes : c.Encoded) (db : NovaDb c.Encoded)
      → IsLawful c
      → db.faults ≡ false ∷ true ∷ []
      → c.from_block b ≡ some bytes
      → let (r, db') = put_block c b db in
        (r ≡ err sled_error)
        × ((get_block c b.header.height db').0 ≡ ok (some b))
        × (db'.block_hashes ≡ db.block_hashes)
        × (db'.transactions ≡ db.transactions)
        × (db'.latest_height ≡ db.latest_height)
  unfolding put_block get_block
  put_block_partial b bytes db law fault h =
      let back = law.block_back b bytes h in
      let k = b.header.height in
      let l = lookup-insert k k bytes db.blocks in
      let out : NovaDb c.Encoded = record db { blocks = insert k bytes db.blocks; faults = [] } in
      let g : put_block c b db ≡ (err sled_error, out) = ground (arith, fault, h) in
      (
        ap (λ x. x.0) g,
        ap (λ x. (get_block c k x.1).0) g ∙ ground (arith, l, back),
        ap (λ x. x.1.block_hashes) g,
        ap (λ x. x.1.transactions) g,
        ap (λ x. x.1.latest_height) g,
      )
