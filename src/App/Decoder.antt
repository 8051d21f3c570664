-- ===== src/App/Decoder.antt =====
-- application/decoder.py: the dispatch on the wire identifier and the length, and a whole payload.
mod Bodies
mod Prices
pub mod Payload
mod Examples
unfoldable pub use Bodies.*
unfoldable pub use Prices.*
use intelipump.Common.{ℕ, ◌%◌, ◌&&◌, Option, none, some, List, [], ◌∷◌, leb, ◌==◌, if◌then◌else◌}
use intelipump.App.Splitter.{RawTransaction, SplitWarning, split_transactions}
use intelipump.App.Transaction.{ApplicationTransaction}

unfoldable pub decode_raw_transaction :
    RawTransaction → DecodeArguments → Option ApplicationTransaction
decode_raw_transaction raw args =
    let id = raw.transaction_id in
    let lng = raw.length' in
    if id == 0x01 && lng == 1
    then decode_ambiguous_01 raw args
    else if id == 0x02 && lng == 8
    then some (decode_dc2 raw args)
    else if id == 0x03 && lng == 4
    then decode_dc3_preferred raw args
    else if id == 0x05 && lng == 1
    then decode_dc5 raw args
    else if id == 0x05 && leb 3 lng && lng % 3 == 0
    then some (decode_cd5 raw args)
    else if id == 0x65 && lng == 1
    then decode_cd101_request raw args
    else if id == 0x65 && lng == 16
    then decode_dc101 raw args
    else some (unknown raw args)

pub record DecodeBundle : Type 0 where
  pub transactions : List ApplicationTransaction
  pub trailing_bytes : List ℕ
  pub warnings : List SplitWarning

pub decode_each : List RawTransaction → DecodeArguments → Option (List ApplicationTransaction)
decode_each [] args = some []
decode_each (raw ∷ rest) args =
    let first = decode_raw_transaction raw args in
    let others = decode_each rest args in
    elim first [ none ↦ none | some tx ↦ elim others [ none ↦ none | some txs ↦ some (tx ∷ txs) ] ]

-- `none` is an exception of a decoder.
pub decode_data_payload : List ℕ → DecodeArguments → Option DecodeBundle
decode_data_payload payload args =
    let split = split_transactions payload in
    elim (decode_each split.transactions args) [
      | none ↦ none
      | some txs ↦ some (record {
        transactions = txs;
        trailing_bytes = split.trailing_bytes;
        warnings = split.warnings;
      })
    ]
