-- ===== src/Common/Dict.antt =====
-- A `HashMap` as an association list without repeated keys. The program relies on the order
-- in which a map is iterated only where it serialises one, the commitments of an account.
use Prim.Native.Nat.{ℕ, ◌+◌, ◌≤◌}
use mathlib.Core.Path.{◌≡◌, refl}
use mathlib.Core.Bool.{Bool, true, false}
use mathlib.Core.Option.{Option, none, some}
use mathlib.Core.List.{List, [], ◌∷◌}
use native.Mathlib.Omega.{arith}
use nova_protocol.Common.Tests.{if◌then◌else◌}
use nova_protocol.Common.Keys.{Key, ◌=?◌, same_iff}

abbrev pub Dict {ℓ κ} : Type ℓ → Type κ → Type (ℓ ⊔ κ)
Dict K V = List (K × V)

module _ {ℓ κ} {K : Type ℓ} {V : Type κ} ⦃e : Key K⦄ where
  unfoldable pub lookup : K → Dict K V → Option V
  lookup k [] = none
  lookup k ((j, v) ∷ d) = if k =? j then some v else lookup k d

  unfoldable pub contains : K → Dict K V → Bool
  unfolding lookup
  contains k d = elim (lookup k d) [ none ↦ false | some _ ↦ true ]

  -- Overwrites the entry of a key that is present.
  unfoldable pub insert : K → V → Dict K V → Dict K V
  insert k v [] = (k, v) ∷ []
  insert k v ((j, w) ∷ d) = if k =? j then (k, v) ∷ d else (j, w) ∷ insert k v d

  unfoldable pub erase : K → Dict K V → Dict K V
  erase k [] = []
  erase k ((j, w) ∷ d) = let rest = erase k d in if k =? j then rest else (j, w) ∷ rest

  pub lookup-insert :
      (j k : K) (v : V) (d : Dict K V)
      → lookup j (insert k v d) ≡ (if j =? k then some v else lookup j d)
  unfolding lookup insert
  lookup-insert j k v [] = refl
  lookup-insert j k v ((i, w) ∷ d) =
      ground (arith, same_iff j k, same_iff k i, same_iff j i, lookup-insert j k v d)

  pub lookup-erase :
      (j k : K) (d : Dict K V) → lookup j (erase k d) ≡ (if j =? k then none else lookup j d)
  unfolding lookup erase
  lookup-erase j k [] = ground arith
  lookup-erase j k ((i, w) ∷ d) =
      ground (arith, same_iff j k, same_iff k i, same_iff j i, lookup-erase j k d)

-- To overwrite an entry by itself changes nothing.
pub insert_same {ℓ κ} :
    {K : Type ℓ} {V : Type κ} ⦃e : Key K⦄ (k : K) (v : V) (d : Dict K V)
    → lookup k d ≡ some v
    → insert k v d ≡ d
unfolding lookup insert
insert_same k v [] h = cc
insert_same k v ((j, w) ∷ d) h = ground (arith, same_iff k j, insert_same k v d)

-- The sum of the values of a map into numbers.
module _ {ℓ} {K : Type ℓ} ⦃e : Key K⦄ where
  unfoldable pub total : Dict K ℕ → ℕ
  total [] = 0
  total ((_, v) ∷ d) = v + total d

  unfoldable pub lookup_or_zero : K → Dict K ℕ → ℕ
  unfolding lookup
  lookup_or_zero k d = elim (lookup k d) [ none ↦ 0 | some v ↦ v ]

  pub total-insert :
      (k : K) (v : ℕ) (d : Dict K ℕ) → total (insert k v d) + lookup_or_zero k d ≡ total d + v
  unfolding total insert lookup_or_zero
  total-insert k v [] = omega arith
  total-insert k v ((j, w) ∷ d) = ground (arith, same_iff k j, total-insert k v d)

  pub lookup_or_zero-le-total : (k : K) (d : Dict K ℕ) → lookup_or_zero k d ≤ total d
  unfolding total lookup_or_zero
  lookup_or_zero-le-total k [] = omega arith
  lookup_or_zero-le-total k ((j, w) ∷ d) = ground (arith, lookup_or_zero-le-total k d)

  pub lookup_or_zero-insert :
      (j k : K) (v : ℕ) (d : Dict K ℕ)
      → lookup_or_zero j (insert k v d) ≡ (if j =? k then v else lookup_or_zero j d)
  unfolding lookup_or_zero
  lookup_or_zero-insert j k v d = ground (arith, lookup-insert j k v d)
