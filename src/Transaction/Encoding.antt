-- ===== src/Transaction/Encoding.antt =====
-- What `signable_bytes` of protocol/src/transaction/builder.rs determines.
use Prim.Native.Char.{code}
use mathlib.Core.List.{append-nil}
use nova_protocol.Common.{
  ℕ, ◌≤◌, ◌<◌, ◌≡◌, refl, ap, sym, ◌∙◌, String, Option, none, some, List, [], ◌∷◌, ◌++◌, arith,
  length, append_parts, sum_of, ◌==◌, if◌then◌else◌, u64_max,
}
use nova_protocol.Transaction.{
  Transaction, TransactionType, transfer, credit_request, credit_settlement, token_mint, token_burn,
  confidential_transfer, type_name, ticker, Primitives, payload_bytes, signable_bytes,
}
use nova_protocol.Transaction.Bytes.{
  Octets, to_le_bytes, length-to_le_bytes, to_le_bytes_inj, word-Fits, short-Fits, NulFree,
  nul_parts,
}

-- The code points of a text.
abbrev pub codes : String → List ℕ
codes String.[] = []
codes (String.◌∷◌ c s) = code c ∷ codes s

-- UTF-8 determines a text, and has a zero byte only for U+0000.
pub record IsUtf8 (utf8 : String → Octets) : Type 0 where
  pub inj : (s t : String) → utf8 s ≡ utf8 t → s ≡ t
  pub nul_free : (s : String) → NulFree (codes s) → NulFree (utf8 s)

type_name-NulFree : (t : TransactionType) → NulFree (codes (type_name t))
type_name-NulFree transfer = omega arith
type_name-NulFree credit_request = omega arith
type_name-NulFree credit_settlement = omega arith
type_name-NulFree token_mint = omega arith
type_name-NulFree token_burn = omega arith
type_name-NulFree confidential_transfer = omega arith

-- The names of the types differ, already in the sum of their code points.
abbrev by_sum : ℕ → TransactionType
by_sum n =
    if n == 837
    then transfer
    else if n == 1348
    then credit_request
    else if n == 1664
    then credit_settlement
    else if n == 921
    then token_mint
    else if n == 920
    then token_burn
    else confidential_transfer

by_sum-sum_of : (t : TransactionType) → by_sum (sum_of (λ c. c) (codes (type_name t))) ≡ t
by_sum-sum_of transfer = refl
by_sum-sum_of credit_request = refl
by_sum-sum_of credit_settlement = refl
by_sum-sum_of token_mint = refl
by_sum-sum_of token_burn = refl
by_sum-sum_of confidential_transfer = refl

type_name_inj : (t u : TransactionType) → type_name t ≡ type_name u → t ≡ u
type_name_inj t u e =
    sym (by_sum-sum_of t) ∙ ap (λ s. by_sum (sum_of (λ c. c) (codes s))) e ∙ by_sum-sum_of u

-- The fields of a transaction fit in their words, and its texts have no zero byte.
pub record IsWellFormed (p : Primitives) (tx : Transaction) : Type 0 where
  pub version_fits : tx.version < 65536
  pub value_fits : tx.amount.value ≤ u64_max
  pub fee_fits : tx.fee ≤ u64_max
  pub nonce_fits : tx.nonce ≤ u64_max
  pub timestamp_fits : tx.timestamp ≤ u64_max
  pub sender_nul_free : NulFree (p.utf8 tx.sender)
  pub receiver_nul_free : NulFree (p.utf8 tx.receiver)
  pub ticker_nul_free : NulFree (p.utf8 (ticker tx.amount.currency))

module _ (p : Primitives) where
  word_parts :
      (n m : ℕ) (xs ys : Octets)
      → n ≤ u64_max
      → m ≤ u64_max
      → to_le_bytes 8 n ++ xs ≡ to_le_bytes 8 m ++ ys
      → (n ≡ m) × (xs ≡ ys)
  word_parts n m xs ys h h' e =
      let (front, back) =
        append_parts (to_le_bytes 8 n) (to_le_bytes 8 m) xs ys
          (length-to_le_bytes 8 n ∙ sym (length-to_le_bytes 8 m)) e in
      (to_le_bytes_inj 8 n m (word-Fits n h) (word-Fits m h') front, back)

  payload_bytes_inj : (a b : Option Octets) → payload_bytes p a ≡ payload_bytes p b → a ≡ b
  payload_bytes_inj none none e = refl
  payload_bytes_inj none (some b) e = absurd (ground arith)
  payload_bytes_inj (some a) none e = absurd (ground arith)
  payload_bytes_inj (some a) (some b) e =
      let (_, back) =
        append_parts (to_le_bytes 4 (length a)) (to_le_bytes 4 (length b)) (a ++ []) (b ++ [])
          (length-to_le_bytes 4 (length a) ∙ sym (length-to_le_bytes 4 (length b))) (cc) in
      ap some (sym (append-nil a) ∙ back ∙ append-nil b)

  -- Where UTF-8 is read back and has no zero byte but for U+0000, the numbers of two transactions fit
  -- in their words, and their senders, receivers and tickers have no zero byte, which nothing in the
  -- builder enforces: if the bytes to sign are the same, so are all fields but the id, the keys and
  -- proofs that are attached later, and the currency, of which the ticker is the same.
  pub signable_bytes_inj :
      (tx ty : Transaction)
      → IsUtf8 p.utf8
      → IsWellFormed p tx
      → IsWellFormed p ty
      → signable_bytes p tx ≡ signable_bytes p ty
      → (tx.version ≡ ty.version)
        × (tx.tx_type ≡ ty.tx_type)
        × (tx.sender ≡ ty.sender)
        × (tx.receiver ≡ ty.receiver)
        × (tx.amount.value ≡ ty.amount.value)
        × (ticker tx.amount.currency ≡ ticker ty.amount.currency)
        × (tx.fee ≡ ty.fee)
        × (tx.nonce ≡ ty.nonce)
        × (tx.timestamp ≡ ty.timestamp)
        × (tx.payload ≡ ty.payload)
  unfolding signable_bytes
  signable_bytes_inj tx ty u v w e =
      let (e₁, e) =
        append_parts (to_le_bytes 2 tx.version) (to_le_bytes 2 ty.version) _ _
          (length-to_le_bytes 2 tx.version ∙ sym (length-to_le_bytes 2 ty.version)) e in
      let (e₂, e) =
        nul_parts (p.utf8 (type_name tx.tx_type)) (p.utf8 (type_name ty.tx_type)) _ _
          (u.nul_free _ (type_name-NulFree tx.tx_type))
          (u.nul_free _ (type_name-NulFree ty.tx_type)) e in
      let (e₃, e) =
        nul_parts (p.utf8 tx.sender) (p.utf8 ty.sender) _ _ v.sender_nul_free w.sender_nul_free e in
      let (e₄, e) =
        nul_parts (p.utf8 tx.receiver) (p.utf8 ty.receiver) _ _ v.receiver_nul_free
          w.receiver_nul_free e in
      let (e₅, e) = word_parts tx.amount.value ty.amount.value _ _ v.value_fits w.value_fits e in
      let (e₆, e) =
        nul_parts (p.utf8 (ticker tx.amount.currency)) (p.utf8 (ticker ty.amount.currency)) _ _
          v.ticker_nul_free w.ticker_nul_free e in
      let (e₇, e) = word_parts tx.fee ty.fee _ _ v.fee_fits w.fee_fits e in
      let (e₈, e) = word_parts tx.nonce ty.nonce _ _ v.nonce_fits w.nonce_fits e in
      let (e₉, e) = word_parts tx.timestamp ty.timestamp _ _ v.timestamp_fits w.timestamp_fits e in
      (
        to_le_bytes_inj 2 tx.version ty.version (short-Fits _ v.version_fits)
            (short-Fits _ w.version_fits) e₁,
        type_name_inj tx.tx_type ty.tx_type (u.inj _ _ e₂),
        u.inj _ _ e₃,
        u.inj _ _ e₄,
        e₅,
        u.inj _ _ e₆,
        e₇,
        e₈,
        e₉,
        payload_bytes_inj tx.payload ty.payload e,
      )
