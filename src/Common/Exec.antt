-- ===== src/Common/Exec.antt =====
-- A Rust method `fn op(&mut self, …) -> Result<A, E>`: the state comes back beside an error too,
-- since what was written before the early return stays written. `panic` is a failed `unwrap`.
use mathlib.Core.Path.{◌≡◌, refl}
use mathlib.Core.Logic.{◌⊎◌, inl, inr}
use mathlib.Core.Bool.{Bool}
use mathlib.Core.Option.{Option, none, some}
use nova_protocol.Common.Tests.{if◌then◌else◌}

pub data Result (A E : Type 0) : Type 0 where
  ok : A → Result A E
  err : E → Result A E
  panic : Result A E

abbrev pub is_ok : {A E : Type 0} → Result A E → Bool
is_ok (ok _) = Bool.true
is_ok _ = Bool.false

abbrev pub Exec : Type 0 → Type 0 → Type 0 → Type 0
Exec S A E = S → Result A E × S

module _ {S A E : Type 0} where
  abbrev pub pure : A → Exec S A E
  pure a s = (ok a, s)

  abbrev pub raise : E → Exec S A E
  raise e s = (err e, s)

  abbrev pub gets : (S → A) → Exec S A E
  gets f s = (ok (f s), s)

  -- `o.ok_or(e)?`
  abbrev pub or_raise : Option A → E → Exec S A E
  or_raise none e = raise e
  or_raise (some a) e = pure a

  -- the `?` on a result already at hand
  abbrev pub lift : Result A E → Exec S A E
  lift r s = (r, s)

  -- `o.unwrap()`
  abbrev pub unwrap : Option A → Exec S A E
  unwrap none s = (panic, s)
  unwrap (some a) s = (ok a, s)

abbrev pub get : {S E : Type 0} → Exec S S E
get s = (ok s, s)

abbrev pub put : {S E : Type 0} → S → Exec S (Unit {0}) E
put s' s = (ok tt, s')

infixl 5 ◌>>=◌ ◌>>◌
abbrev pub ◌>>=◌ : {S A B E : Type 0} → Exec S A E → (A → Exec S B E) → Exec S B E
◌>>=◌ m f s =
    let (r, s') = m s in elim r [ ok a ↦ f a s' | err e ↦ (err e, s') | panic ↦ (panic, s') ]

abbrev pub ◌>>◌ : {S A B E : Type 0} → Exec S A E → Exec S B E → Exec S B E
m >> k = m >>= λ _. k

-- `if c { return Err(e); }`
abbrev pub raise_if : {S E : Type 0} → Bool → E → Exec S (Unit {0}) E
raise_if c e s = (if c then err e else ok tt, s)

pub Result-cases :
    {A E : Type 0} (r : Result A E)
    → ((a : A) × (r ≡ ok a)) ⊎ ((r ≡ panic) ⊎ ((x : E) × (r ≡ err x)))
Result-cases (ok a) = inl (a, refl)
Result-cases (err x) = inr (inr (x, refl))
Result-cases panic = inr (inl refl)
