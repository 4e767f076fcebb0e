-- ===== src/Network/Mempool/Counts.antt =====
-- How many entries a map of protocol/src/network/mempool.rs holds after an entry comes or goes.
use nova_protocol.Common.{
  suc, ◌≡◌, inl, inr, refl, ap, ◌∙◌, String, none, some, [], ◌∷◌, arith, ◌=?◌, same_iff, string_key,
  length, Bool-cases, if◌then◌else◌,
}
use nova_protocol.Common.Dict.{Dict, insert, erase, lookup}
use nova_protocol.Network.Mempool.{MempoolEntry}
use nova_protocol.Network.Mempool.Pool.{HasKeysOnce, pending, erase_absent}

module _ (e : MempoolEntry) where
  abbrev id : String
  id = e.transaction.id

  pub length-erase :
      (d : Dict String MempoolEntry)
      → HasKeysOnce d
      → lookup id d ≡ some e
      → suc (length (erase id d)) ≡ length d
  unfolding erase lookup
  length-erase [] u h = absurd (ground arith)
  length-erase ((i, f) ∷ d) u h = elim (Bool-cases (id =? i)) [
    | inl n ↦
        let q : id ≡ i = (same_iff id i).0 n in
        let g = erase_absent e d (ap (λ i. lookup i d) q ∙ u.0) in ground (arith, n, g)
    | inr n ↦ ground (arith, n, length-erase d u.1)
  ]

  pub pending-erase :
      (d : Dict String MempoolEntry) (sender : String)
      → HasKeysOnce d
      → lookup id d ≡ some e
      → pending sender d ≡ (
          if e.transaction.sender =? sender
          then suc (pending sender (erase id d))
          else pending sender (erase id d))
  unfolding erase lookup
  pending-erase [] sender u h = absurd (ground arith)
  pending-erase ((i, f) ∷ d) sender u h = elim (Bool-cases (id =? i)) [
    | inl n ↦
        let q : id ≡ i = (same_iff id i).0 n in
        let g = erase_absent e d (ap (λ i. lookup i d) q ∙ u.0) in
        let r : f ≡ e = ground (arith, n) in
        rw n (
          rw g (
            ap
              (λ f.
                if f.transaction.sender =? sender then suc (pending sender d) else pending sender d)
              r))
    | inr n ↦ let rest = pending-erase d sender u.1 in ground (arith, n, rest)
  ]

  pub length-insert :
      (d : Dict String MempoolEntry) → lookup id d ≡ none → length (insert id e d) ≡ suc (length d)
  unfolding insert lookup
  length-insert [] h = refl
  length-insert ((i, f) ∷ d) h = ground (arith, length-insert d)

  pub pending-insert :
      (d : Dict String MempoolEntry) (sender : String)
      → lookup id d ≡ none
      → pending sender (insert id e d)
        ≡ (if e.transaction.sender =? sender then suc (pending sender d) else pending sender d)
  unfolding insert lookup
  pending-insert [] sender h = refl
  pending-insert ((i, f) ∷ d) sender h = let rest = pending-insert d sender in ground (arith, rest)
