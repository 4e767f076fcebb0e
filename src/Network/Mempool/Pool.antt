-- ===== src/Network/Mempool/Pool.antt =====
-- The pool of protocol/src/network/mempool.rs: how its indices follow from its transactions.
use nova_protocol.Common.{
  ℕ, suc, ◌-◌, ◌≡◌, ◌≢◌, inl, inr, refl, sym, ap, ◌∙◌, String, false, none, some, [], ◌∷◌, arith,
  ◌=?◌, same_iff, string_key, length, All, All-map, count_if, Bool-cases, if◌then◌else◌,
}
use nova_protocol.Common.Dict.{
  Dict, insert, erase, lookup, lookup_or_zero, lookup-insert, lookup-erase, lookup_or_zero-insert,
}
use nova_protocol.Network.Mempool.{
  FeeKey, FeeIndex, MempoolEntry, same_key, place, take_out, key_of, decrement_sender_count,
}
use nova_protocol.Network.Mempool.Index.{
  IsSorted, Lacks, All-place, All-place_back, place-IsSorted, place-place, take_out-place,
  take_out-place_same, length-place,
}

-- No key of a map occurs twice.
abbrev pub HasKeysOnce : Dict String MempoolEntry → Type 0
HasKeysOnce [] = Unit
HasKeysOnce ((id, e) ∷ d) = (lookup id d ≡ none) × HasKeysOnce d

-- The index that belongs to a map of entries.
unfoldable pub index_of : Dict String MempoolEntry → FeeIndex
index_of [] = []
index_of ((id, e) ∷ d) = place (key_of e) id (index_of d)

-- How many entries of a map are from one sender.
abbrev pub pending : String → Dict String MempoolEntry → ℕ
pending sender d = count_if (λ x. x.1.transaction.sender =? sender) d

abbrev pub HasOwnId : String × MempoolEntry → Type 0
HasOwnId x = x.1.transaction.id ≡ x.0

pub index_of-IsSorted : (d : Dict String MempoolEntry) → IsSorted (index_of d)
unfolding index_of
index_of-IsSorted [] = tt
index_of-IsSorted ((id, e) ∷ d) = place-IsSorted (key_of e) id (index_of d) (index_of-IsSorted d)

pub All-index_of :
    (P : FeeKey × String → Type 0) (d : Dict String MempoolEntry)
    → All (λ x. P (key_of x.1, x.0)) d
    → All P (index_of d)
unfolding index_of
All-index_of P [] a = tt
All-index_of P ((id, e) ∷ d) a = All-place P (key_of e) id (index_of d) a.0 (All-index_of P d a.1)

keys_differ : (a b : FeeKey) → a.tx_id ≢ b.tx_id → same_key a b ≡ false
unfolding same_key
keys_differ a b n = ground (arith, same_iff a.tx_id b.tx_id)

-- An id that is not in the map is in no key of its index.
absent-Lacks :
    (k : FeeKey) (d : Dict String MempoolEntry)
    → All HasOwnId d
    → lookup k.tx_id d ≡ none
    → Lacks k (index_of d)
unfolding lookup index_of
absent-Lacks k [] o h = tt
absent-Lacks k ((id, e) ∷ d) o h =
    let s = same_iff k.tx_id id in
    let n : k.tx_id ≢ e.transaction.id =
      λ q. absurd (let r : k.tx_id ≡ id = q ∙ o.0 in ground (arith, s, r)) in
    All-place (λ x. same_key k x.0 ≡ false) (key_of e) id (index_of d) (keys_differ k (key_of e) n)
      (absent-Lacks k d o.1 (ground (arith, s)))

module _ (e : MempoolEntry) where
  abbrev id : String
  id = e.transaction.id

  pub index_of-insert :
      (d : Dict String MempoolEntry)
      → All HasOwnId d
      → HasKeysOnce d
      → lookup id d ≡ none
      → index_of (insert id e d) ≡ place (key_of e) id (index_of d)
  unfolding insert lookup index_of
  index_of-insert [] o u h = refl
  index_of-insert ((i, f) ∷ d) o u h =
      let s = same_iff id i in
      let n : (id =? i) ≡ false = ground arith in
      let h' : lookup id d ≡ none = ground (arith, n) in
      let m : f.transaction.id ≢ id =
        λ q. absurd (let r : id ≡ i = sym q ∙ o.0 in ground (arith, s, r)) in
      let rest : index_of (insert id e d) ≡ place (key_of e) id (index_of d) =
        index_of-insert d o.1 u.1 h' in
      rw n (
        ap (place (key_of f) i) rest
        ∙ place-place (key_of f) (key_of e) i id (index_of d) (keys_differ (key_of f) (key_of e) m)
            (absent-Lacks (key_of f) d o.1 (ap (λ i. lookup i d) o.0 ∙ u.0))
            (absent-Lacks (key_of e) d o.1 h'))

  pub erase_absent : (d : Dict String MempoolEntry) → lookup id d ≡ none → erase id d ≡ d
  unfolding erase lookup
  erase_absent [] h = refl
  erase_absent ((i, f) ∷ d) h = ground (arith, erase_absent d)

  pub index_of-erase :
      (d : Dict String MempoolEntry)
      → All HasOwnId d
      → HasKeysOnce d
      → lookup id d ≡ some e
      → index_of (erase id d) ≡ take_out (key_of e) (index_of d)
  unfolding erase lookup index_of
  index_of-erase [] o u h = absurd (ground arith)
  index_of-erase ((i, f) ∷ d) o u h = elim (Bool-cases (id =? i)) [
    | inl n ↦
        let q : id ≡ i = (same_iff id i).0 n in
        let g : f ≡ e = ground (arith, n) in
        let h' : lookup id d ≡ none = ap (λ i. lookup i d) q ∙ u.0 in
        rw n (
          ap index_of (erase_absent d h')
          ∙ sym (take_out-place_same (key_of e) i (index_of d) (absent-Lacks (key_of e) d o.1 h'))
          ∙ ap (λ f. take_out (key_of e) (place (key_of f) i (index_of d))) (sym g))
    | inr n ↦
        let s = same_iff id i in
        let m : id ≢ f.transaction.id =
          λ q. absurd (let r : id ≡ i = q ∙ o.0 in ground (arith, s, r)) in
        let h' : lookup id d ≡ some e = ground (arith, n) in
        let rest : index_of (erase id d) ≡ take_out (key_of e) (index_of d) =
          index_of-erase d o.1 u.1 h' in
        rw n (
          ap (place (key_of f) i) rest
          ∙ sym (
              take_out-place (key_of e) (key_of f) i (index_of d)
                (keys_differ (key_of e) (key_of f) m) (index_of-IsSorted d)))
  ]

  pub insert-HasKeysOnce :
      (d : Dict String MempoolEntry)
      → lookup id d ≡ none
      → HasKeysOnce d
      → HasKeysOnce (insert id e d)
  unfolding insert lookup
  insert-HasKeysOnce [] h u = (refl, tt)
  insert-HasKeysOnce ((i, f) ∷ d) h u =
      let n : (id =? i) ≡ false = ground arith in
      let h' : lookup id d ≡ none = ground (arith, n) in
      rw n (
        ground (arith, n, u.0, lookup-insert i id e d, same_iff i id, same_iff id i),
        insert-HasKeysOnce d h' u.1,
      )

  pub All-insert :
      (P : String × MempoolEntry → Type 0) (d : Dict String MempoolEntry)
      → P (id, e)
      → All P d
      → All P (insert id e d)
  unfolding insert
  All-insert P [] h a = (h, tt)
  All-insert P ((i, f) ∷ d) h a = elim (Bool-cases (id =? i)) [
    | inl n ↦ rw n (h, a.1)
    | inr n ↦ rw n (a.0, All-insert P d h a.1)
  ]

pub All-erase :
    (P : String × MempoolEntry → Type 0) (id : String) (d : Dict String MempoolEntry)
    → All P d
    → All P (erase id d)
unfolding erase
All-erase P id [] a = tt
All-erase P id ((i, f) ∷ d) a = elim (Bool-cases (id =? i)) [
  | inl n ↦ rw n (All-erase P id d a.1)
  | inr n ↦ rw n (a.0, All-erase P id d a.1)
]

pub erase-HasKeysOnce :
    (id : String) (d : Dict String MempoolEntry) → HasKeysOnce d → HasKeysOnce (erase id d)
unfolding erase
erase-HasKeysOnce id [] u = tt
erase-HasKeysOnce id ((i, f) ∷ d) u = elim (Bool-cases (id =? i)) [
  | inl n ↦ rw n (erase-HasKeysOnce id d u.1)
  | inr n ↦ rw n (ground (arith, n, u.0, lookup-erase i id d), erase-HasKeysOnce id d u.1)
]

pub lookup_or_zero-decrement_sender_count :
    (s sender : String) (counts : Dict String ℕ)
    → lookup_or_zero s (decrement_sender_count sender counts)
      ≡ (if s =? sender then lookup_or_zero s counts - 1 else lookup_or_zero s counts)
unfolding lookup_or_zero decrement_sender_count
lookup_or_zero-decrement_sender_count s sender counts = ground (
  arith,
  same_iff s sender,
  lookup-erase s sender counts,
  lookup_or_zero-insert s sender (lookup_or_zero sender counts - 1) counts,
)

pub All-lookup :
    (P : String × MempoolEntry → Type 0) (id : String) (e : MempoolEntry)
    (d : Dict String MempoolEntry)
    → All P d
    → lookup id d ≡ some e
    → P (id, e)
unfolding lookup
All-lookup P id e [] a h = absurd (ground arith)
All-lookup P id e ((i, f) ∷ d) a h = elim (Bool-cases (id =? i)) [
  | inl n ↦
      let q : id ≡ i = (same_iff id i).0 n in
      let r : f ≡ e = ground (arith, n) in rw q (rw (sym r) a.0)
  | inr n ↦ All-lookup P id e d a.1 (ground (arith, n))
]

pub all_found :
    (d : Dict String MempoolEntry) → HasKeysOnce d → All (λ x. lookup x.0 d ≡ some x.1) d
unfolding lookup
all_found [] u = tt
all_found ((i, f) ∷ d) u = (
  ground (arith, same_iff i i),
  All-map (λ x. lookup x.0 d ≡ some x.1)
      (λ x. (if x.0 =? i then some f else lookup x.0 d) ≡ some x.1) d
      (λ x h. elim (Bool-cases (x.0 =? i)) [
        | inl n ↦
            let q : lookup x.0 d ≡ lookup i d = ap (λ i. lookup i d) ((same_iff x.0 i).0 n) in
            absurd (let r = u.0 in ground (arith, h, q, r))
        | inr n ↦ ground (arith, n, h)
      ])
      (all_found d u.1),
)

-- What holds of the index holds of each entry.
pub index_of_back :
    (P : FeeKey × String → Type 0) (d : Dict String MempoolEntry)
    → All HasOwnId d
    → HasKeysOnce d
    → All P (index_of d)
    → All (λ x. P (key_of x.1, x.0)) d
unfolding index_of
index_of_back P [] o u a = tt
index_of_back P ((i, f) ∷ d) o u a =
    let (first, rest) =
      All-place_back P (key_of f) i (index_of d)
        (absent-Lacks (key_of f) d o.1 (ap (λ i. lookup i d) o.0 ∙ u.0)) a in
    (first, index_of_back P d o.1 u.1 rest)

pub length-index_of :
    (d : Dict String MempoolEntry) → All HasOwnId d → HasKeysOnce d → length (index_of d) ≡ length d
unfolding index_of
length-index_of [] o u = refl
length-index_of ((i, f) ∷ d) o u =
    length-place (key_of f) i (index_of d)
      (absent-Lacks (key_of f) d o.1 (ap (λ i. lookup i d) o.0 ∙ u.0))
    ∙ ap suc (length-index_of d o.1 u.1)
