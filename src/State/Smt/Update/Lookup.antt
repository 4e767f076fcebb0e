-- ===== src/State/Smt/Update/Lookup.antt =====
-- What `get` of protocol/src/storage/state.rs reads after a `put`.
use nova_protocol.Common.{◌≡◌, ◌≢◌, ap, String, Option, none, some, tagged_key}
use nova_protocol.State.{AccountState}
use nova_protocol.State.Smt.{Primitives, IsLawful, Bytes, StateTree, address_to_key, get, put}
use nova_protocol.State.Smt.Update.{path_hash, written-value, written-other_value}

abbrev found : Primitives → Option Bytes → Option AccountState
found p none = none
found p (some bytes) = p.decode bytes

-- A written account is read back as its serialisation is.
pub get-put_self :
    (p : Primitives) (address : String) (s : AccountState) (t : StateTree)
    → IsLawful p
    → get p address (put p address s t) ≡ p.decode (p.encode s)
unfolding get put path_hash
get-put_self p address s t law =
    ap (found p) (written-value p law t.db (address_to_key p address) (p.encode s))

-- With a lawful hash, after a write, an address with another key reads what it
-- read before.
pub get-put_ne :
    (p : Primitives) (a b : String) (s : AccountState) (t : StateTree)
    → IsLawful p
    → address_to_key p b ≢ address_to_key p a
    → get p b (put p a s t) ≡ get p b t
unfolding get put path_hash
get-put_ne p a b s t law ne =
    ap (found p)
      (written-other_value p law t.db (address_to_key p a) (p.encode s) (address_to_key p b) ne)
