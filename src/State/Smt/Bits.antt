-- ===== src/State/Smt/Bits.antt =====
-- Prefixes of keys: how the storage keys of protocol/src/storage/state.rs tell the nodes apart.
use nova_protocol.Common.{
  ℕ, zero, suc, ◌-◌, ◌≤◌, ◌<◌, ◌≡◌, ◌≢◌, refl, ap, false, not, [], ◌∷◌, ◌++◌, arith, length, take,
  get_or, flip,
}
use mathlib.Core.List.{append_cancel_right}
use nova_protocol.State.Smt.{Primitives, Bytes, storage_key_for_node, leaf_value_key}

pub length-flip : (k : Bytes) (m : ℕ) → length (flip k m) ≡ length k
length-flip [] m = refl
length-flip (b ∷ k) zero = refl
length-flip (b ∷ k) (suc m) = ap suc (length-flip k m)

pub take-flip : (k : Bytes) (m : ℕ) → take m (flip k m) ≡ take m k
take-flip [] m = refl
take-flip (b ∷ k) zero = refl
take-flip (b ∷ k) (suc m) = ap (λ t. b ∷ t) (take-flip k m)

pub get_or-flip :
    (k : Bytes) (m : ℕ) → m < length k → get_or (flip k m) m false ≡ not (get_or k m false)
get_or-flip [] m h = elim h [ ]
get_or-flip (b ∷ k) zero h = refl
get_or-flip (b ∷ k) (suc m) h = get_or-flip k m (omega arith)

pub take_extend :
    (k j : Bytes) (m : ℕ)
    → m < length k
    → m < length j
    → take m k ≡ take m j
    → get_or k m false ≡ get_or j m false
    → take (suc m) k ≡ take (suc m) j
take_extend [] j m h h' e b = elim h [ ]
take_extend (x ∷ k) [] m h h' e b = elim h' [ ]
take_extend (x ∷ k) (y ∷ j) zero h h' e b = cc
take_extend (x ∷ k) (y ∷ j) (suc m) h h' e b =
    ground (arith, take_extend k j m (omega arith) (omega arith))

pub take_shorten : (k j : Bytes) (m : ℕ) → take (suc m) k ≡ take (suc m) j → take m k ≡ take m j
take_shorten k j zero e = refl
take_shorten [] [] (suc m) e = refl
take_shorten [] (y ∷ j) (suc m) e = cc
take_shorten (x ∷ k) [] (suc m) e = cc
take_shorten (x ∷ k) (y ∷ j) (suc m) e = ground (arith, take_shorten k j m)

pub get_or_of_take :
    (k j : Bytes) (m : ℕ)
    → m < length k
    → m < length j
    → take (suc m) k ≡ take (suc m) j
    → get_or k m false ≡ get_or j m false
get_or_of_take [] j m h h' e = elim h [ ]
get_or_of_take (x ∷ k) [] m h h' e = elim h' [ ]
get_or_of_take (x ∷ k) (y ∷ j) zero h h' e = cc
get_or_of_take (x ∷ k) (y ∷ j) (suc m) h h' e =
    ground (arith, get_or_of_take k j m (omega arith) (omega arith))

pub take-length : (k : Bytes) → take (length k) k ≡ k
take-length [] = refl
take-length (x ∷ k) = ap (λ t. x ∷ t) (take-length k)

-- Of two strings of the same length the parts before and behind a joint are determined.
pub append_split : (a b c d : Bytes) → length a ≡ length c → a ++ b ≡ c ++ d → (a ≡ c) × (b ≡ d)
append_split [] b [] d h e = (refl, e)
append_split [] b (y ∷ c) d h e = absurd (omega arith)
append_split (x ∷ a) b [] d h e = absurd (omega arith)
append_split (x ∷ a) b (y ∷ c) d h e = ground (arith, append_split a b c d (omega arith))

module _ (p : Primitives) where
  open p use {depth}

  -- At one level, the nodes of two keys are one node exactly if the keys share the prefix.
  pub storage_key_of_take :
      (k j : Bytes) (l : ℕ)
      → take (depth - l) k ≡ take (depth - l) j
      → storage_key_for_node p k l ≡ storage_key_for_node p j l
  unfolding storage_key_for_node
  storage_key_of_take k j l e = rw e refl

  pub take_of_storage_key :
      (k j : Bytes) (l : ℕ)
      → storage_key_for_node p k l ≡ storage_key_for_node p j l
      → take (depth - l) k ≡ take (depth - l) j
  unfolding storage_key_for_node
  take_of_storage_key k j l e = append_cancel_right _ _ _ (ap (λ s. s.1) e)

  pub storage_key-ne-level :
      (k j : Bytes) (l l' : ℕ) → l ≢ l' → storage_key_for_node p k l ≢ storage_key_for_node p j l'
  unfolding storage_key_for_node
  storage_key-ne-level k j l l' ne e = ne (ap (λ s. s.0) e)

  pub storage_key-ne-value :
      (k j : Bytes) (l : ℕ) → l ≤ 256 → storage_key_for_node p k l ≢ leaf_value_key p j
  unfolding storage_key_for_node leaf_value_key
  storage_key-ne-value k j l small e = absurd (omega (arith, ap (λ s. s.0) e))

  pub value_key_inj : (k j : Bytes) → leaf_value_key p k ≡ leaf_value_key p j → k ≡ j
  unfolding leaf_value_key
  value_key_inj k j e = ap (λ s. s.1) e
