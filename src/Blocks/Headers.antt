-- ===== src/Blocks/Headers.antt =====
-- What the hash of a block of protocol/src/storage/block.rs stands for.
use nova_protocol.Common.{
  ℕ, zero, suc, ◌/◌, ◌%◌, ◌*◌, ◌≤◌, ◌<◌, ◌≡◌, ◌≢◌, ◌⊎◌, ◌↔◌, inl, inr, refl, sym, ◌∙◌, String, List,
  [], ◌∷◌, ◌++◌, arith, Bool, true, not, ◌&&◌, length, append_parts, append_ends, length-append,
  same_iff, bits_key, ◌=?◌, ◌==◌, u64_max, if◌then◌else◌,
}
use nova_protocol.Common.Exec.{ok, err}
use nova_protocol.Transaction.{Transaction}
use nova_protocol.Blocks.{
  Bytes, Block, BlockHeader, hash_mismatch, tx_root_mismatch, genesis_parent, Primitives, low_bits,
  to_le_bytes, zero_hash, header_preimage, compute_header_hash, compute_merkle_root, compute_hash,
  genesis, new, verify,
}
use nova_protocol.Blocks.Levels.{Collide, blake3_inj}

length-low_bits : (k n : ℕ) → length (low_bits k n) ≡ k
length-low_bits zero n = refl
length-low_bits (suc k) n =
    omega (arith, length-low_bits k (n / 2), length-append (low_bits k (n / 2)) ((n % 2 == 1) ∷ []))

length-to_le_bytes : (k n : ℕ) → length (to_le_bytes k n) ≡ 8 * k
length-to_le_bytes zero n = refl
length-to_le_bytes (suc k) n = omega (
  arith,
  length-to_le_bytes k (n / 256),
  length-low_bits 8 n,
  length-append (low_bits 8 n) (to_le_bytes k (n / 256)),
)

-- Two numbers with the same `k` lowest bits.
abbrev Agree : ℕ → ℕ → ℕ → Type 0
Agree zero n m = Unit
Agree (suc k) n m = Agree k (n / 2) (m / 2) × (n % 2 ≡ m % 2)

low_bits-Agree : (k n m : ℕ) → low_bits k n ≡ low_bits k m → Agree k n m
low_bits-Agree zero n m e = tt
low_bits-Agree (suc k) n m e =
    let (high, low) =
      append_parts (low_bits k (n / 2)) (low_bits k (m / 2)) _ _
        (length-low_bits k (n / 2) ∙ sym (length-low_bits k (m / 2))) e in
    let bit : (n % 2 == 1) ≡ (m % 2 == 1) = cc in
    (low_bits-Agree k (n / 2) (m / 2) high, ground (arith, bit))

byte_inj : (n m : ℕ) → low_bits 8 n ≡ low_bits 8 m → n % 256 ≡ m % 256
byte_inj n m e = let h = low_bits-Agree 8 n m e in omega (arith, h)

abbrev Fits : ℕ → ℕ → Type 0
Fits zero n = n ≡ 0
Fits (suc k) n = Fits k (n / 256)

to_le_bytes_inj : (k n m : ℕ) → Fits k n → Fits k m → to_le_bytes k n ≡ to_le_bytes k m → n ≡ m
to_le_bytes_inj zero n m h h' e = omega arith
to_le_bytes_inj (suc k) n m h h' e =
    let (low, high) =
      append_parts (low_bits 8 n) (low_bits 8 m) _ _
        (length-low_bits 8 n ∙ sym (length-low_bits 8 m)) e in
    let q = byte_inj n m low in
    let r = to_le_bytes_inj k (n / 256) (m / 256) h h' high in omega (arith, q, r)

word_inj : (n m : ℕ) → n ≤ u64_max → m ≤ u64_max → to_le_bytes 8 n ≡ to_le_bytes 8 m → n ≡ m
word_inj n m h h' e = to_le_bytes_inj 8 n m (omega arith) (omega arith) e

-- The fields of a header fit in their words and hashes.
pub record IsWellFormed (h : BlockHeader) : Type 0 where
  pub height_fits : h.height ≤ u64_max
  pub timestamp_fits : h.timestamp ≤ u64_max
  pub parent_length : length h.parent_hash ≡ 256
  pub state_length : length h.state_root ≡ 256
  pub tx_length : length h.tx_root ≡ 256

module _ (p : Primitives) where
  -- What `compute_hash` hashes.
  abbrev pub preimage : BlockHeader → Bytes
  preimage h =
      header_preimage p h.height h.parent_hash h.timestamp h.validator h.state_root h.tx_root

  -- Two headers agree on all that the hash covers.
  pub record SameContent (g h : BlockHeader) : Type 0 where
    pub same_height : g.height ≡ h.height
    pub same_parent : g.parent_hash ≡ h.parent_hash
    pub same_timestamp : g.timestamp ≡ h.timestamp
    pub same_validator : p.utf8 g.validator ≡ p.utf8 h.validator
    pub same_state : g.state_root ≡ h.state_root
    pub same_transactions : g.tx_root ≡ h.tx_root

  preimage-SameContent :
      (g h : BlockHeader)
      → IsWellFormed g
      → IsWellFormed h
      → preimage g ≡ preimage h
      → SameContent g h
  preimage-SameContent g h u v e =
      let word = length-to_le_bytes 8 in
      let (e₁, e) =
        append_parts (to_le_bytes 8 g.height) (to_le_bytes 8 h.height) _ _
          (word g.height ∙ sym (word h.height)) e in
      let (e₂, e) =
        append_parts g.parent_hash h.parent_hash _ _ (u.parent_length ∙ sym v.parent_length) e in
      let (e₃, e) =
        append_parts (to_le_bytes 8 g.timestamp) (to_le_bytes 8 h.timestamp) _ _
          (word g.timestamp ∙ sym (word h.timestamp)) e in
      let (e₄, e) =
        append_ends (p.utf8 g.validator) (p.utf8 h.validator) (g.state_root ++ g.tx_root)
          (h.state_root ++ h.tx_root)
          (omega (
            arith,
            u.state_length,
            v.state_length,
            u.tx_length,
            v.tx_length,
            length-append g.state_root g.tx_root,
            length-append h.state_root h.tx_root,
          ))
          e in
      let (e₅, e₆) =
        append_parts g.state_root h.state_root g.tx_root h.tx_root
          (u.state_length ∙ sym v.state_length) e in
      record {
        same_height = word_inj g.height h.height u.height_fits v.height_fits e₁;
        same_parent = e₂;
        same_timestamp = word_inj g.timestamp h.timestamp u.timestamp_fits v.timestamp_fits e₃;
        same_validator = e₄;
        same_state = e₅;
        same_transactions = e₆;
      }

  guards :
      (height : ℕ) (hash root parent : Bool)
      → ((if not hash
            then err hash_mismatch
            else if not root
            then err tx_root_mismatch
            else if (height == 0) && not parent
            then err genesis_parent
            else ok tt)
          ≡ ok tt)
        ↔ ((hash ≡ true) × (root ≡ true) × (height ≡ 0 → parent ≡ true))
  guards height hash root parent = ground arith

  -- `verify` passes exactly when the hash and the root are those of the contents, and a block of
  -- height 0 has no parent.
  pub verify_lem :
      (b : Block)
      → (verify p b ≡ ok tt) ↔ (
          (b.header.hash ≡ compute_hash p b)
          × (b.header.tx_root ≡ compute_merkle_root p b.transactions)
          × (b.header.height ≡ 0 → b.header.parent_hash ≡ zero_hash))
  unfolding verify
  verify_lem b =
      let (f, g) =
        guards b.header.height (b.header.hash =? compute_hash p b)
          (b.header.tx_root =? compute_merkle_root p b.transactions)
          (b.header.parent_hash =? zero_hash) in
      let (hash, hash') = same_iff b.header.hash (compute_hash p b) in
      let (root, root') = same_iff b.header.tx_root (compute_merkle_root p b.transactions) in
      let (parent, parent') = same_iff b.header.parent_hash zero_hash in
      (
        λ e. let (x, y, z) = f e in (hash x, root y, λ q. parent (z q)),
        λ (x, y, z). g (hash' x, root' y, λ q. parent' (z q)),
      )

  pub verify-tx_root_mismatch :
      (b : Block)
      → b.header.hash ≡ compute_hash p b
      → b.header.tx_root ≢ compute_merkle_root p b.transactions
      → verify p b ≡ err tx_root_mismatch
  unfolding verify
  verify-tx_root_mismatch b h n = ground (
    arith,
    same_iff b.header.hash (compute_hash p b),
    same_iff b.header.tx_root (compute_merkle_root p b.transactions),
  )

  -- Two blocks that pass `verify` under one hash, and whose heights, times and hashes have the length
  -- of their types, have the same contents in their headers, or the two texts that were hashed for
  -- them are different and have one hash.
  pub verify_binds :
      (b c : Block)
      → IsWellFormed b.header
      → IsWellFormed c.header
      → verify p b ≡ ok tt
      → verify p c ≡ ok tt
      → b.header.hash ≡ c.header.hash
      → SameContent b.header c.header ⊎ Collide p (preimage b.header) (preimage c.header)
  unfolding compute_hash compute_header_hash
  verify_binds b c u v h h' e =
      let (hash, _, _) = (verify_lem b).0 h in
      let (hash', _, _) = (verify_lem c).0 h' in
      elim (blake3_inj p (preimage b.header) (preimage c.header) (sym hash ∙ e ∙ hash')) [
        | inl q ↦ inl (preimage-SameContent b.header c.header u v q)
        | inr k ↦ inr k
      ]

  -- A block made on a parent of a height below the maximum passes `verify`, as the genesis block
  -- does, it is one higher, and it names the hash of its parent.
  pub verify-new :
      (now_ms : ℕ) (parent : Block) (txs : List Transaction) (validator : String)
      (state_root : Bytes)
      → parent.header.height < u64_max
      → (verify p (genesis p) ≡ ok tt)
        × (verify p (new p now_ms parent txs validator state_root) ≡ ok tt)
        × ((new p now_ms parent txs validator state_root).header.height ≡ suc parent.header.height)
        × ((new p now_ms parent txs validator state_root).header.parent_hash ≡ parent.header.hash)
  unfolding genesis new compute_hash compute_merkle_root
  verify-new now_ms parent txs validator state_root h = (
    (verify_lem (genesis p)).1 (refl, refl, λ _. refl),
    (verify_lem (new p now_ms parent txs validator state_root)).1
        (refl, refl, λ z. absurd (omega (arith, z))),
    omega arith,
    refl,
  )
