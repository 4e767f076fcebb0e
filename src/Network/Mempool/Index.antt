-- ===== src/Network/Mempool/Index.antt =====
-- The order of the fee index of protocol/src/network/mempool.rs, and the list that stands for its
-- B-tree.
use nova_protocol.Common.{
  ◌≤◌, ◌≡◌, ◌↔◌, inl, inr, refl, sym, ap, String, true, false, none, some, [], ◌∷◌, arith, ◌=?◌,
  same_iff, string_key, length, suc, All, All-map, Bool-cases, precedes, precedes_irrefl,
  precedes_trans, precedes_total,
}
use nova_protocol.Network.Mempool.{FeeKey, FeeIndex, before, same_key, place, take_out, last_entry}

same_fields :
    (a b : FeeKey)
    → a.inverted_fee ≡ b.inverted_fee
    → a.added_at ≡ b.added_at
    → a.tx_id ≡ b.tx_id
    → a ≡ b
same_fields a b e₁ e₂ e₃ = λ i. record { inverted_fee = e₁ i; added_at = e₂ i; tx_id = e₃ i }

pub same_key_iff : (a b : FeeKey) → (same_key a b ≡ true) ↔ (a ≡ b)
unfolding same_key
same_key_iff a b =
    let s = same_iff a.tx_id b.tx_id in
    (
      λ h. same_fields a b (ground (arith, s)) (ground (arith, s)) (ground (arith, s)),
      λ e.
          let e₁ : a.inverted_fee ≡ b.inverted_fee = ap (λ k. k.inverted_fee) e in
          let e₂ : a.added_at ≡ b.added_at = ap (λ k. k.added_at) e in
          let e₃ : a.tx_id ≡ b.tx_id = ap (λ k. k.tx_id) e in ground (arith, s, e₁, e₂, e₃),
    )

pub before_same : (a b : FeeKey) → before a b ≡ true → same_key a b ≡ false
unfolding before same_key
before_same a b h = elim (Bool-cases (a.tx_id =? b.tx_id)) [
  | inl e ↦
      let q : a.tx_id ≡ b.tx_id = (same_iff a.tx_id b.tx_id).0 e in
      let no : precedes a.tx_id b.tx_id ≡ false = rw q (precedes_irrefl b.tx_id) in
      ground (arith, no)
  | inr e ↦ ground (arith, e)
]

pub before_trans : (a b c : FeeKey) → before a b ≡ true → before b c ≡ true → before a c ≡ true
unfolding before
before_trans a b c h k = ground (arith, precedes_trans a.tx_id b.tx_id c.tx_id)

pub before_total : (a b : FeeKey) → same_key a b ≡ false → before a b ≡ false → before b a ≡ true
unfolding before same_key
before_total a b h k = ground (arith, precedes_total a.tx_id b.tx_id, same_iff a.tx_id b.tx_id)

abbrev pub IsSorted : FeeIndex → Type 0
IsSorted [] = Unit
IsSorted (x ∷ rest) = All (λ y. before x.0 y.0 ≡ true) rest × IsSorted rest

abbrev pub Lacks : FeeKey → FeeIndex → Type 0
Lacks k = All (λ x. same_key k x.0 ≡ false)

same_sym : (a b : FeeKey) → same_key a b ≡ false → same_key b a ≡ false
unfolding same_key
same_sym a b h = ground (arith, same_iff a.tx_id b.tx_id, same_iff b.tx_id a.tx_id)

pub All-place :
    (P : FeeKey × String → Type 0) (k : FeeKey) (id : String) (r : FeeIndex)
    → P (k, id)
    → All P r
    → All P (place k id r)
unfolding place
All-place P k id [] h a = (h, tt)
All-place P k id ((j, x) ∷ r) h a = elim (Bool-cases (same_key k j)) [
  | inl e ↦ rw e (h, a.1)
  | inr e ↦ elim (Bool-cases (before k j)) [
    | inl b ↦ rw e (rw b (h, a))
    | inr b ↦ rw e (rw b (a.0, All-place P k id r h a.1))
  ]
]

pub place-IsSorted :
    (k : FeeKey) (id : String) (r : FeeIndex) → IsSorted r → IsSorted (place k id r)
unfolding place
place-IsSorted k id [] h = (tt, tt)
place-IsSorted k id ((j, x) ∷ r) h = elim (Bool-cases (same_key k j)) [
  | inl e ↦ let q : k ≡ j = (same_key_iff k j).0 e in rw e (rw q h.0, h.1)
  | inr e ↦ elim (Bool-cases (before k j)) [
    | inl b ↦ rw e (
        rw b (
          (
            b,
            All-map (λ y. before j y.0 ≡ true) (λ y. before k y.0 ≡ true) r
                (λ y c. before_trans k j y.0 b c) h.0,
          ),
          h,
        ))
    | inr b ↦ rw e (
        rw b (
          All-place (λ y. before j y.0 ≡ true) k id r (before_total k j e b) h.0,
          place-IsSorted k id r h.1,
        ))
  ]
]

-- A key that comes first is put in front.
place_front :
    (k : FeeKey) (id : String) (r : FeeIndex)
    → All (λ y. before k y.0 ≡ true) r
    → place k id r ≡ (k, id) ∷ r
unfolding place
place_front k id [] h = refl
place_front k id ((j, x) ∷ r) h = ground (arith, before_same k j, h.0)

before_asym : (a b : FeeKey) → before a b ≡ true → before b a ≡ false
before_asym a b h = elim (Bool-cases (before b a)) [
  | inr k ↦ k
  | inl k ↦
      let no = before_same a a (before_trans a b a h k) in
      let yes = (same_key_iff a a).1 refl in absurd (ground (arith, no, yes))
]

-- Two different keys can be put into an index in either order.
pub place-place :
    (k l : FeeKey) (x y : String) (r : FeeIndex)
    → same_key k l ≡ false
    → Lacks k r
    → Lacks l r
    → place k x (place l y r) ≡ place l y (place k x r)
unfolding place
place-place k l x y [] h hk hl =
    ground (arith, h, same_sym k l h, before_total k l h, before_asym k l, before_asym l k)
place-place k l x y ((j, z) ∷ r) h hk hl = ground (
  arith,
  h,
  hk.0,
  hl.0,
  same_sym k l h,
  before_total k l h,
  before_asym k l,
  before_asym l k,
  before_trans k l j,
  before_trans l k j,
  place-place k l x y r h hk.1 hl.1,
)

pub take_out-place_same :
    (k : FeeKey) (id : String) (r : FeeIndex) → Lacks k r → take_out k (place k id r) ≡ r
unfolding place take_out
take_out-place_same k id [] h = ground (arith, same_key_iff k k)
take_out-place_same k id ((j, x) ∷ r) h =
    ground (arith, same_key_iff k k, h.0, take_out-place_same k id r h.1)

pub All-take_out :
    (P : FeeKey × String → Type 0) (k : FeeKey) (r : FeeIndex) → All P r → All P (take_out k r)
unfolding take_out
All-take_out P k [] a = tt
All-take_out P k ((j, x) ∷ r) a = elim (Bool-cases (same_key k j)) [
  | inl e ↦ rw e a.1
  | inr e ↦ rw e (a.0, All-take_out P k r a.1)
]

pub take_out-place :
    (k l : FeeKey) (y : String) (r : FeeIndex)
    → same_key k l ≡ false
    → IsSorted r
    → take_out k (place l y r) ≡ place l y (take_out k r)
unfolding place take_out
take_out-place k l y [] h s = ground (arith, h)
take_out-place k l y ((j, z) ∷ r) h s = elim (Bool-cases (same_key k j)) [
  | inl e ↦
      let q : k ≡ j = (same_key_iff k j).0 e in
      let n : same_key l j ≡ false = rw (sym q) (same_sym k l h) in
      elim (Bool-cases (before l j)) [
        | inl b ↦
            let f : place l y r ≡ (l, y) ∷ r = place_front l y r (
              All-map (λ x. before j x.0 ≡ true) (λ x. before l x.0 ≡ true) r
                (λ x c. before_trans l j x.0 b c) s.0) in
            ground (arith, e, n, b, h, f)
        | inr b ↦ ground (arith, e, n, b, h)
      ]
  | inr e ↦ ground (arith, e, h, take_out-place k l y r h s.1)
]

pub before-le : (a b : FeeKey) → before a b ≡ true → a.inverted_fee ≤ b.inverted_fee
unfolding before
before-le a b h = ground arith

pub last_entry_lem :
    (P : FeeKey × String → Type 0) (x : FeeKey × String) (r : FeeIndex)
    → All P r
    → last_entry r ≡ some x
    → P x
unfolding last_entry
last_entry_lem P x [] a h = absurd (ground arith)
last_entry_lem P x (y ∷ []) a h = let q : y ≡ x = cc in rw (sym q) a.0
last_entry_lem P x (y ∷ z ∷ r) a h = last_entry_lem P x (z ∷ r) a.1 h

pub last_entry_none : (P : FeeKey × String → Type 0) (r : FeeIndex) → last_entry r ≡ none → All P r
unfolding last_entry
last_entry_none P [] h = tt
last_entry_none P (y ∷ []) h = absurd (ground arith)
last_entry_none P (y ∷ z ∷ r) h = absurd (let n = last_entry_none (λ _. ⊥) (z ∷ r) h in n.0)

-- The last key has the lowest fee.
pub last_entry_lowest :
    (x : FeeKey × String) (r : FeeIndex)
    → IsSorted r
    → last_entry r ≡ some x
    → All (λ y. y.0.inverted_fee ≤ x.0.inverted_fee) r
unfolding last_entry
last_entry_lowest x [] s h = tt
last_entry_lowest x (y ∷ []) s h =
    let q : y ≡ x = cc in
    let same : y.0.inverted_fee ≡ x.0.inverted_fee = ap (λ y. y.0.inverted_fee) q in
    (omega (arith, same), tt)
last_entry_lowest x (y ∷ z ∷ r) s h = (
  before-le y.0 x.0 (last_entry_lem (λ z. before y.0 z.0 ≡ true) x (z ∷ r) s.0 h),
  last_entry_lowest x (z ∷ r) s.1 h,
)

pub All-place_back :
    (P : FeeKey × String → Type 0) (k : FeeKey) (id : String) (r : FeeIndex)
    → Lacks k r
    → All P (place k id r)
    → P (k, id) × All P r
unfolding place
All-place_back P k id [] l a = a
All-place_back P k id ((j, x) ∷ r) l a = elim (Bool-cases (before k j)) [
  | inl b ↦ let n = l.0 in let a' : All P ((k, id) ∷ (j, x) ∷ r) = rw n at (rw b at a) in a'
  | inr b ↦
      let n = l.0 in
      let a' : All P ((j, x) ∷ place k id r) = rw n at (rw b at a) in
      let (first, rest) = All-place_back P k id r l.1 a'.1 in (first, (a'.0, rest))
]

pub length-place :
    (k : FeeKey) (id : String) (r : FeeIndex) → Lacks k r → length (place k id r) ≡ suc (length r)
unfolding place
length-place k id [] l = refl
length-place k id ((j, x) ∷ r) l = ground (arith, l.0, length-place k id r l.1)
