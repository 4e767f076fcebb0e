-- ===== src/Common/Toy.antt =====
-- A codec between numbers and texts, for examples: each number as so many letters `a` and a `b`, and
-- a `c` before the rest.
use Prim.Native.Char.{Char, code}
use Prim.Native.Nat.{ℕ, zero, suc, ◌+◌}
use Prim.Native.String.{String}
use mathlib.Core.Path.{◌≡◌, refl, ap, ◌∙◌}
use mathlib.Core.Bool.{true, false}
use mathlib.Core.List.{List, [], ◌∷◌}
use native.Mathlib.Omega.{arith}
use nova_protocol.Common.Tests.{◌==◌}

abbrev letter_a : Char
letter_a = "a"

abbrev letter_b : Char
letter_b = "b"

abbrev letter_c : Char
letter_c = "c"

abbrev unary : ℕ → String → String
unary zero s = s
unary (suc n) s = String.◌∷◌ letter_a (unary n s)

abbrev pub to_text : List ℕ → String → String
to_text [] rest = String.◌∷◌ letter_c rest
to_text (n ∷ xs) rest = unary n (String.◌∷◌ letter_b (to_text xs rest))

abbrev pub of_text : ℕ → String → List ℕ × String
of_text n String.[] = ([], "")
of_text n (String.◌∷◌ c s) = elim (code c == 97) [
  | true ↦ of_text (suc n) s
  | false ↦ elim (code c == 98) [ true ↦ (n ∷ (of_text 0 s).0, (of_text 0 s).1) | false ↦ ([], s) ]
]

of_text-unary : (n m k : ℕ) (s : String) → n + m ≡ k → of_text n (unary m s) ≡ of_text k s
of_text-unary n zero k s e = ap (λ k. of_text k s) (omega (arith, e))
of_text-unary n (suc m) k s e = of_text-unary (suc n) m k s (omega (arith, e))

pub of_text-to_text : (xs : List ℕ) (rest : String) → of_text 0 (to_text xs rest) ≡ (xs, rest)
of_text-to_text [] rest = refl
of_text-to_text (n ∷ xs) rest =
    of_text-unary 0 n n (String.◌∷◌ letter_b (to_text xs rest)) (omega arith)
    ∙ ap (λ o. (n ∷ o.0, o.1)) (of_text-to_text xs rest)
