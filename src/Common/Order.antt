-- ===== src/Common/Order.antt =====
-- The order of texts: by the number of the first character that differs, as Rust compares the
-- bytes of their UTF-8 forms.
use Prim.Native.Char.{code}
use Prim.Native.String.{String}
use Prim.Native.Nat.{ℕ, ◌<◌}
use mathlib.Core.Path.{◌≡◌, ◌∙◌, refl, ap}
use mathlib.Core.Logic.{◌⊎◌, inl, inr}
use mathlib.Core.Bool.{Bool, true, false}
use native.Mathlib.Omega.{arith}
use text.Mathlib.TextEquality.{Char-path}
use nova_protocol.Common.Tests.{ltb, ◌==◌, if◌then◌else◌}

unfoldable pub precedes : String → String → Bool
precedes s String.[] = false
precedes String.[] (String.◌∷◌ d t) = true
precedes (String.◌∷◌ c s) (String.◌∷◌ d t) =
    let rest = precedes s t in
    if ltb (code c) (code d) then true else if code c == code d then rest else false

pub precedes_irrefl : (s : String) → precedes s s ≡ false
unfolding precedes
precedes_irrefl String.[] = refl
precedes_irrefl (String.◌∷◌ c s) = ground (arith, precedes_irrefl s)

pub precedes_trans :
    (s t u : String) → precedes s t ≡ true → precedes t u ≡ true → precedes s u ≡ true
unfolding precedes
precedes_trans s t String.[] h k = absurd (ground arith)
precedes_trans s String.[] (String.◌∷◌ e u) h k = absurd (ground arith)
precedes_trans String.[] (String.◌∷◌ d t) (String.◌∷◌ e u) h k = refl
precedes_trans (String.◌∷◌ c s) (String.◌∷◌ d t) (String.◌∷◌ e u) h k =
    ground (arith, precedes_trans s t u)

trichotomy : (m n : ℕ) → (m < n) ⊎ ((n < m) ⊎ (m ≡ n))
trichotomy m n = omega arith

pub precedes_total : (s t : String) → (precedes s t ≡ true) ⊎ ((precedes t s ≡ true) ⊎ (s ≡ t))
unfolding precedes
precedes_total String.[] String.[] = inr (inr refl)
precedes_total String.[] (String.◌∷◌ d t) = inl refl
precedes_total (String.◌∷◌ c s) String.[] = inr (inl refl)
precedes_total (String.◌∷◌ c s) (String.◌∷◌ d t) = elim (trichotomy (code c) (code d)) [
  | inl h ↦ inl (ground (arith, h))
  | inr (inl h) ↦ inr (inl (ground (arith, h)))
  | inr (inr q) ↦ elim (precedes_total s t) [
    | inl h ↦ inl (ground (arith, q, h))
    | inr (inl h) ↦ inr (inl (ground (arith, q, h)))
    | inr (inr e) ↦
        inr (inr (ap (λ c. String.◌∷◌ c s) (Char-path c d q) ∙ ap (λ s. String.◌∷◌ d s) e))
  ]
]
