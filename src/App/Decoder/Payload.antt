-- ===== src/App/Decoder/Payload.antt =====
-- Decoding whole payloads.
use intelipump.App.Splitter.Laws.{split_transactions-SplitsAt, InOrder, split-join}
use intelipump.App.Fields.{decode_scaled_bcd}
use intelipump.App.Decoder.{decode_raw_transaction, DecodeBundle, decode_each, decode_data_payload}
use intelipump.App.Decoder.Prices.{
  total_fields, decode_cd101_request, price_chunks, decode_dc5, decode_dc101, decode_cd5,
}
use intelipump.App.Decoder.Bodies.{
  decode_dc2, at_byte, envelope, DecodeArguments, unknown, decode_ambiguous_01, fill_fields,
  decode_dc3_preferred,
}
use intelipump.Common.{
  ℕ, zero, suc, ◌<◌, ◌≡◌, refl, inl, inr, Option, some, List, [], ◌∷◌, arith, length, Result-cases,
  ◌+◌, ◌/◌, none, take, Bool, true, false, ◌&&◌, ◌==◌, if◌then◌else◌, sym, ap, ◌∙◌, append-nil,
}
use intelipump.App.Splitter.{RawTransaction, split_transactions}
use intelipump.App.Transaction.{
  MessageDirection, DecodeStatus, TransactionType, Body, DecodeWarning, ApplicationTransaction,
}

-- The transaction is the raw one, decoded.
abbrev pub Carries : RawTransaction → ApplicationTransaction → Type 0
Carries raw tx =
    (tx.raw_transaction ≡ raw.raw)
    × (tx.transaction_id ≡ raw.transaction_id)
    × (tx.raw_payload ≡ raw.data')
    × (tx.offset ≡ raw.offset)

abbrev Yields : RawTransaction → Option ApplicationTransaction → Type 0
Yields raw o = (tx : ApplicationTransaction) × (o ≡ some tx) × Carries raw tx

envelope-Carries :
    (raw : RawTransaction) (args : DecodeArguments) (type : TransactionType) (d : MessageDirection)
    (s : DecodeStatus) (body : Option Body) (warnings : List DecodeWarning)
    → Carries raw (envelope raw args type d s body warnings)
unfolding envelope
envelope-Carries raw args type d s body warnings = (refl, refl, refl, refl)

at_byte-Yields :
    (raw : RawTransaction) (i : ℕ) (bytes : List ℕ) (f : ℕ → ApplicationTransaction)
    → i < length bytes
    → ((x : ℕ) → Carries raw (f x))
    → Yields raw (at_byte i bytes f)
at_byte-Yields raw i [] f h c = absurd (omega arith)
at_byte-Yields raw zero (x ∷ xs) f h c = (f x, refl, c x)
at_byte-Yields raw (suc i) (x ∷ xs) f h c = at_byte-Yields raw i xs f (omega arith) c

module _ (raw : RawTransaction) (args : DecodeArguments) where
  dc2-Yields : Yields raw (some (decode_dc2 raw args))
  unfolding decode_dc2
  dc2-Yields = elim (Result-cases (fill_fields raw.data' args)) [
    | inl (f, e) ↦ rw (decode_dc2, e) (_, refl, (refl, refl, refl, refl))
    | inr (x, e) ↦ rw (decode_dc2, e) (_, refl, (refl, refl, refl, refl))
  ]

  cd5-Yields : Yields raw (some (decode_cd5 raw args))
  unfolding decode_cd5
  cd5-Yields =
      elim (Result-cases (price_chunks ((raw.length' + 2) / 3) 1 raw.data' args.price_decimals)) [
        | inl (f, e) ↦ rw (decode_cd5, e) (_, refl, (refl, refl, refl, refl))
        | inr (x, e) ↦ rw (decode_cd5, e) (_, refl, (refl, refl, refl, refl))
      ]

  dc3-Yields : 3 < length raw.data' → Yields raw (decode_dc3_preferred raw args)
  unfolding decode_dc3_preferred
  dc3-Yields h = elim (Result-cases (decode_scaled_bcd (take 3 raw.data') args.price_decimals)) [
    | inl (f, e) ↦
        rw (decode_dc3_preferred, e)
          (at_byte-Yields raw 3 raw.data' _ h (λ x. (refl, refl, refl, refl)))
    | inr (x, e) ↦ rw (decode_dc3_preferred, e) (_, refl, (refl, refl, refl, refl))
  ]

  dc101-Yields : 0 < length raw.data' → Yields raw (decode_dc101 raw args)
  unfolding decode_dc101
  dc101-Yields h = at_byte-Yields raw 0 raw.data' _ h (λ x.
      elim (Result-cases (total_fields raw.data' none)) [
        | inl (f, e) ↦ rw e (refl, refl, refl, refl)
        | inr (y, e) ↦ rw e (refl, refl, refl, refl)
      ])

  plain-Yields :
      0 < length raw.data'
      → Yields raw (decode_ambiguous_01 raw args)
        × Yields raw (decode_dc5 raw args)
        × Yields raw (decode_cd101_request raw args)
  unfolding decode_ambiguous_01 decode_dc5 decode_cd101_request
  plain-Yields h = (
    at_byte-Yields raw 0 raw.data' _ h (λ x. (refl, refl, refl, refl)),
    at_byte-Yields raw 0 raw.data' _ h (λ x. (refl, refl, refl, refl)),
    at_byte-Yields raw 0 raw.data' _ h (λ x. (refl, refl, refl, refl)),
  )

  Yields-if :
      (b : Bool) {x y : Option ApplicationTransaction}
      → (b ≡ true → Yields raw x)
      → Yields raw y
      → Yields raw (if b then x else y)
  Yields-if true here there = here refl
  Yields-if false here there = there

  -- A length that was tested leaves data behind.
  longer :
      (k n : ℕ) (b : Bool)
      → length raw.data' ≡ raw.length'
      → k < n
      → (b && raw.length' == n) ≡ true
      → k < length raw.data'
  longer k n b e h t = ground (arith, e, h, t)

  decode_raw-Yields : length raw.data' ≡ raw.length' → Yields raw (decode_raw_transaction raw args)
  unfolding decode_raw_transaction unknown
  decode_raw-Yields e =
      Yields-if _ (λ t. (plain-Yields (longer 0 1 _ e (omega arith) t)).0)
        (Yields-if _ (λ t. dc2-Yields)
          (Yields-if _ (λ t. dc3-Yields (longer 3 4 _ e (omega arith) t))
            (Yields-if _ (λ t. (plain-Yields (longer 0 1 _ e (omega arith) t)).1)
              (Yields-if _ (λ t. cd5-Yields)
                (Yields-if _ (λ t. (plain-Yields (longer 0 1 _ e (omega arith) t)).2)
                  (Yields-if _ (λ t. dc101-Yields (longer 0 16 _ e (omega arith) t))
                    (_, refl, (refl, refl, refl, refl))))))))

-- One decoded transaction for each raw one, in order.
pub data Decodes : List RawTransaction → List ApplicationTransaction → Type 0 where
  none_left : Decodes [] []
  one_more :
      {raw : RawTransaction} {rest : List RawTransaction} {tx : ApplicationTransaction}
      {txs : List ApplicationTransaction}
      → Carries raw tx
      → Decodes rest txs
      → Decodes (raw ∷ rest) (tx ∷ txs)

decode_each-Decodes :
    (index : ℕ) (raws : List RawTransaction) (args : DecodeArguments)
    → InOrder index raws
    → (txs : List ApplicationTransaction) × (decode_each raws args ≡ some txs) × Decodes raws txs
unfolding decode_each
decode_each-Decodes index [] args h = ([], refl, none_left)
decode_each-Decodes index (raw ∷ rest) args (o, r, sized, h) =
    let (tx, e, c) = decode_raw-Yields raw args sized in
    let (txs, f, d) = decode_each-Decodes (index + length raw.raw) rest args h in
    (tx ∷ txs, rw (decode_each, e, f) refl, one_more c d)

-- Whatever payload arrives, decoding it raises nothing: it gives one transaction for each raw
-- transaction of the split, in order, with its bytes, identifier and place, and keeps the trailing bytes
-- and the warnings of the split.
pub decode_payload-Decodes :
    (payload : List ℕ) (args : DecodeArguments)
    → (bundle : DecodeBundle) × (decode_data_payload payload args ≡ some bundle)
      × Decodes (split_transactions payload).transactions bundle.transactions
      × (bundle.trailing_bytes ≡ (split_transactions payload).trailing_bytes)
      × (bundle.warnings ≡ (split_transactions payload).warnings)
unfolding decode_data_payload
decode_payload-Decodes payload args =
    let (txs, e, d) =
      decode_each-Decodes 0 (split_transactions payload).transactions args
        (split_transactions-SplitsAt payload).1 in
    (_, rw (decode_data_payload, e) refl, d, refl, refl)

-- A payload that is one transaction.
abbrev pub single : ℕ → List ℕ → RawTransaction
single id data' = record {
  transaction_id = id;
  length' = length data';
  data' = data';
  raw = id ∷ length data' ∷ data';
  offset = 0;
}

abbrev pub alone : ApplicationTransaction → DecodeBundle
alone tx = record { transactions = tx ∷ []; trailing_bytes = []; warnings = [] }

pub decode_single :
    (id : ℕ) (data' : List ℕ) (args : DecodeArguments) {t : ApplicationTransaction}
    → decode_raw_transaction (single id data') args ≡ some t
    → decode_data_payload (id ∷ length data' ∷ data') args ≡ some (alone t)
unfolding decode_data_payload decode_each
decode_single id data' args e =
    let txs = ap (λ s. s.transactions) one_message in
    let rest = ap (λ s. s.trailing_bytes) one_message in
    let notes = ap (λ s. s.warnings) one_message in
    rw (decode_data_payload, txs, decode_each, e, rest, notes) refl
  where
    one_message :
        split_transactions (id ∷ length data' ∷ data')
        ≡ record { transactions = single id data' ∷ []; trailing_bytes = []; warnings = [] }
    one_message =
        ap (λ d. split_transactions (id ∷ length data' ∷ d)) (sym (append-nil data'))
        ∙ split-join ((id, data') ∷ [])
