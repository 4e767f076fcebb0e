-- ===== src/State/Smt/Paths.antt =====
-- The key that a path of a proof in protocol/src/storage/state.rs names.
use mathlib.Core.List.{append_assoc}
use mathlib.Core.Path.{subst}
use nova_protocol.Common.{
  ℕ, suc, ◌+◌, ◌-◌, ◌≡◌, refl, sym, Bool, false, List, [], ◌∷◌, ◌++◌, arith, length, length-append,
  get_or, bits_key, tagged_key,
}
use nova_protocol.State.Smt.{Primitives, Bytes, get_bit, bit_at_level, path_from}

module _ (p : Primitives) where
  open p use {depth}

  -- The key whose path has the given bits, from the leaf up.
  pub key_of : List Bool → Bytes
  key_of [] = []
  key_of (b ∷ bits) = key_of bits ++ b ∷ []

  pub length-key_of : (bits : List Bool) → length (key_of bits) ≡ length bits
  unfolding key_of
  length-key_of [] = refl
  length-key_of (b ∷ bits) =
      omega (arith, length-append {0} (key_of bits) (b ∷ []), length-key_of bits)

  get_or-joint :
      (xs zs : Bytes) (b : Bool) (n : ℕ) → n ≡ length xs → get_or (xs ++ b ∷ zs) n false ≡ b
  get_or-joint xs zs b n e = rw e (at xs)
    where
      at : (ys : Bytes) → get_or (ys ++ b ∷ zs) (length ys) false ≡ b
      at [] = refl
      at (y ∷ ys) = at ys

  pub path_from-key_of :
      (bits : List Bool) (zs : Bytes) (l : ℕ)
      → l + length bits ≡ depth
      → path_from p (key_of bits ++ zs) (suc l) (length bits) ≡ bits
  unfolding path_from key_of bit_at_level get_bit
  path_from-key_of [] zs l h = refl
  path_from-key_of (b ∷ bits) zs l h =
      subst (λ key. path_from p key (suc l) (suc (length bits)) ≡ b ∷ bits)
        (sym (append_assoc (key_of bits) (b ∷ []) zs))
        (rw
          (
            get_or-joint (key_of bits) zs b (depth - suc l) (omega (arith, length-key_of bits)),
            path_from-key_of bits (b ∷ zs) (suc l) (omega arith),
          )
          refl)
