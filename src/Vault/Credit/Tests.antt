-- ===== src/Vault/Credit/Tests.antt =====
-- The theorems about protocol/src/vault/credit.rs at three lines of one borrower.
use nova_protocol.Common.{ℕ, ◌≡◌, refl, none, some, List, [], ◌∷◌, arith}
use nova_protocol.Common.Exec.{ok}
use nova_protocol.Vault.Credit.{CreditLine, active, frozen, defaulted}
use nova_protocol.Vault.Credit.Line.{Call}
use nova_protocol.Vault.Credit.Manager.{
  CreditLineManager, best_available_line, draw_best_available, min_from,
}
use nova_protocol.Vault.Credit.Draws.{draw_best_available-some}

abbrev cheap : CreditLine
cheap = record {
  id = 1;
  provider = "p";
  borrower = "b";
  limit = 100;
  used = 80;
  interest_rate_bps = 300;
  term_days = 30;
  created_at = 0;
  expires_at = 50;
  status = active;
}

abbrev dear : CreditLine
dear = record cheap { id = 2; limit = 200; used = 0; interest_rate_bps = 900 }

abbrev icy : CreditLine
icy = record cheap { id = 3; status = frozen }

abbrev failed : CreditLine
failed = record cheap { id = 4; status = defaulted }

-- A limit of 2^63 at a rate of 2.
abbrev huge : CreditLine
huge = record cheap { limit = 9223372036854775808; interest_rate_bps = 2 }

abbrev lines : CreditLineManager
lines = icy ∷ dear ∷ cheap ∷ []

abbrev calls : List (ℕ × Call)
calls = (1, Call.repay 30) ∷ (2, Call.freeze) ∷ (3, Call.unfreeze) ∷ (4, Call.draw 7) ∷ []

chosen : best_available_line 20 10 lines ≡ some cheap
unfolding best_available_line min_from
chosen = refl

none_chosen : best_available_line 500 10 lines ≡ none
unfolding best_available_line min_from
none_chosen = refl

draw_best_available-some_example : (draw_best_available 20 10 11 lines).0 ≡ ok (1, 0)
draw_best_available-some_example =
    (draw_best_available-some 20 10 11 cheap lines
      ((λ e. cc, (λ e. cc, tt)), ((λ e. cc, tt), (tt, tt)))
      ((omega arith, omega arith), ((omega arith, omega arith), ((omega arith, omega arith), tt)))
      chosen (omega arith)).0
