-- ===== src/Contracts/TokenFactory/Tests.antt =====
-- The theorems about contracts/src/token_factory.rs at a factory with two holders of one token.
use nova_protocol.Common.{◌≡◌, String, List, [], ◌∷◌, arith}
use nova_protocol.Common.Dict.{lookup, total}
use nova_protocol.Contracts.TokenFactory.{
  TokenInfo, TokenFactory, utility, reward, new, total_supply,
}
use nova_protocol.Contracts.TokenFactory.Supply.{IsBacked}
use nova_protocol.Contracts.TokenFactory.Calls.{Call, run, holdings, run-conserves}

abbrev gold : TokenInfo
gold = record {
  token_id = "t1";
  name = "Gold";
  symbol = "GLD";
  decimals = 2;
  token_type = utility;
  issuer = "issuer";
  total_supply = 50;
  created_at = 1;
}

abbrev two_holders : TokenFactory
two_holders = record {
  tokens = ("t1", gold) ∷ [];
  balances = ("t1", ("alice", 30) ∷ ("bob", 20) ∷ []) ∷ [];
  symbol_index = ("GLD", "t1") ∷ [];
}

abbrev unchanged : String → String
unchanged s = s

abbrev calls : List Call
calls =
    Call.create_token "t1" "Gold" "GLD" 2 utility "issuer" 1
    ∷ Call.create_token "t2" "Silver" "SLV" 2 reward "issuer" 2
    ∷ Call.mint "t1" "alice" 50 "sig"
    ∷ Call.burn "t1" "alice" 20 "sig"
    ∷ []

two_holders-IsBacked : IsBacked two_holders
unfolding lookup total
two_holders-IsBacked id = ground arith

run-conserves_example :
    holdings "t1" (run unchanged calls new) ≡ total_supply "t1" (run unchanged calls new)
run-conserves_example = (run-conserves unchanged calls "t1").0
