-- ===== src/Handshake/Agreement.antt =====
-- What the two sides of protocol/src/ntp/handshake.rs agree on, with and without an intruder.
use nova_protocol.Common.{ℕ, ◌≡◌, refl, ap, String, true, false, List, arith}
use nova_protocol.Common.Exec.{ok, err}
use nova_protocol.Identity.{Octets}
use nova_protocol.Transaction.{Currency, ticker}
use nova_protocol.Handshake.{
  PaymentParams, HandshakeRequest, HandshakeResponse, EstablishedSession, unsupported_currency,
  Primitives, IsLawful, supports, answer, established, initiate, respond, complete,
}

module _ (p : Primitives) where
  -- The two sessions are the two ends of one exchange.
  pub record Match (ours theirs : EstablishedSession) : Type 0 where
    pub same_session : ours.session_id ≡ theirs.session_id
    pub same_secret : ours.shared_secret ≡ theirs.shared_secret
    pub same_params : ours.payment_params ≡ theirs.payment_params
    pub peer_id : ours.peer_nova_id ≡ theirs.our_nova_id
    pub our_id : ours.our_nova_id ≡ theirs.peer_nova_id
    pub peer_key : ours.peer_pubkey ≡ theirs.our_pubkey
    pub our_key : ours.our_pubkey ≡ theirs.peer_pubkey

  module _ (a b nonce pk pk' : Octets) (now now' : ℕ) (id : String) (cs : List Currency)
      (params : PaymentParams) where
    -- A sender's request is answered exactly when the sender supports the currency, and otherwise
    -- refused for it. Then the sender completes the exchange, and both ends have the same secret,
    -- session and payment, each with the other's key and address as the peer's.
    pub complete-respond :
        IsLawful p
        → let (session, request) = initiate p a nonce now pk cs in
          (supports params.currency cs ≡ false
            → respond p b id now' request pk' params
              ≡ err (unsupported_currency (ticker params.currency)))
          × (supports params.currency cs ≡ true
              → (response : HandshakeResponse) × (theirs : EstablishedSession)
                × (ours : EstablishedSession) × (respond p b id now' request pk' params
                    ≡ ok (response, theirs))
                × (complete p response session ≡ ok ours)
                × Match ours theirs)
    unfolding initiate respond complete
    complete-respond law =
        let request : HandshakeRequest = (initiate p a nonce now pk cs).1 in
        (
          λ h. ground (arith, h),
          λ h. (
            answer p b id now' pk' params,
            established p b id request pk' params,
            _,
            ground (arith, h),
            refl,
            record {
              same_session = refl;
              same_secret = ap p.blake3 (law.agree a b);
              same_params = refl;
              peer_id = refl;
              our_id = refl;
              peer_key = refl;
              our_key = refl;
            },
          ),
        )

    -- An intruder with a secret of its own, who puts its public value into the request and into the
    -- response and changes the nonce and the time of the request at will, is noticed by neither end:
    -- each completes, names the other as its peer, and has a secret that the intruder can compute.
    pub intruder_shares :
        (e nonce' : Octets) (stale : ℕ)
        → IsLawful p
        → supports params.currency cs ≡ true
        → let (session, request) = initiate p a nonce now pk cs in
          let request' : HandshakeRequest = record request {
            ephemeral_pubkey = p.x25519_public e;
            nonce = nonce';
            timestamp = stale;
          } in
          (response : HandshakeResponse) × (theirs : EstablishedSession)
          × (ours : EstablishedSession) × (respond p b id now' request' pk' params
              ≡ ok (response, theirs))
          × (complete p (record response { ephemeral_pubkey = p.x25519_public e }) session
              ≡ ok ours)
          × (ours.peer_pubkey ≡ pk')
          × (theirs.peer_pubkey ≡ pk)
          × (ours.shared_secret ≡ p.blake3 (p.diffie_hellman e request.ephemeral_pubkey))
          × (theirs.shared_secret ≡ p.blake3 (p.diffie_hellman e response.ephemeral_pubkey))
    unfolding initiate respond complete
    intruder_shares e nonce' stale law h =
        let request : HandshakeRequest = (initiate p a nonce now pk cs).1 in
        let request' : HandshakeRequest = record request {
          ephemeral_pubkey = p.x25519_public e;
          nonce = nonce';
          timestamp = stale;
        } in
        (
          answer p b id now' pk' params,
          established p b id request' pk' params,
          _,
          ground (arith, h),
          refl,
          refl,
          refl,
          ap p.blake3 (law.agree a e),
          ap p.blake3 (law.agree b e),
        )
