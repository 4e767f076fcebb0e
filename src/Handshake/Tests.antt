-- ===== src/Handshake/Tests.antt =====
-- The theorems about protocol/src/ntp/handshake.rs with a toy key exchange.
use nova_protocol.Common.{◌+◌, ◌≡◌, refl, ap, true, [], ◌∷◌, arith, length}
use nova_protocol.Common.Exec.{ok}
use nova_protocol.Identity.Tests.{toy_identity}
use nova_protocol.Transaction.{brl, nova}
use nova_protocol.Handshake.{
  Primitives, IsLawful, PaymentParams, HandshakeResponse, EstablishedSession, initiate, respond,
  supports,
}
use nova_protocol.Handshake.Agreement.{complete-respond, intruder_shares}

abbrev toy : Primitives
toy = record {
  x25519_public = λ a. a;
  diffie_hellman = λ a b. (length a + length b) ∷ [];
  blake3 = λ x. x;
  identity = toy_identity;
}

toy-IsLawful : IsLawful toy
toy-IsLawful = record { agree = λ a b. ap (λ n. n ∷ []) (omega arith) }

abbrev bill : PaymentParams
bill = record { amount = 30; currency = nova; description = "tea" }

accepts : supports nova (brl ∷ nova ∷ []) ≡ true
unfolding supports
accepts = refl

complete-respond_example :
    (response : HandshakeResponse) × (theirs : EstablishedSession) × (respond toy
        (2 ∷ [])
        "s"
        9
        (initiate toy (1 ∷ []) (5 ∷ []) 8 (7 ∷ []) (brl ∷ nova ∷ [])).1
        (6 ∷ [])
        bill
      ≡ ok (response, theirs))
complete-respond_example =
    let (response, theirs, _, e, _, _) =
      (complete-respond toy (1 ∷ []) (2 ∷ []) (5 ∷ []) (7 ∷ []) (6 ∷ []) 8 9 "s" (brl ∷ nova ∷ [])
          bill toy-IsLawful).1
        accepts in
    (response, theirs, e)

intruder_shares_example :
    (intruder_shares toy
      (1 ∷ [])
      (2 ∷ [])
      (5 ∷ [])
      (7 ∷ [])
      (6 ∷ [])
      8
      9
      "s"
      (brl ∷ nova ∷ [])
      bill
      (3 ∷ 3 ∷ [])
      []
      0
      toy-IsLawful
      accepts).1.peer_pubkey
    ≡ 7 ∷ []
intruder_shares_example =
    (intruder_shares toy (1 ∷ []) (2 ∷ []) (5 ∷ []) (7 ∷ []) (6 ∷ []) 8 9 "s" (brl ∷ nova ∷ []) bill
      (3 ∷ 3 ∷ []) [] 0 toy-IsLawful accepts).6
