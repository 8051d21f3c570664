-- ===== src/App/Splitter.antt =====
-- application/splitter.py, with RawTransaction and SplitResult of application/models.py. The state of
-- the loop is the index and the bytes from it on; `fuel` counts the transactions that may follow.
pub mod Laws
mod Examples
use intelipump.Common.{ℕ, zero, suc, ◌+◌, List, [], ◌∷◌, ltb, if◌then◌else◌, length, take, drop}

pub record RawTransaction : Type 0 where
  pub transaction_id : ℕ
  pub length' : ℕ
  pub data' : List ℕ
  pub raw : List ℕ
  pub offset : ℕ

-- The texts of the warnings, with the numbers that they quote.
pub data SplitWarning : Type 0 where
  truncated_header : ℕ → ℕ → SplitWarning
  truncated_data : ℕ → ℕ → ℕ → ℕ → SplitWarning

pub record SplitResult : Type 0 where
  pub transactions : List RawTransaction
  pub trailing_bytes : List ℕ
  pub warnings : List SplitWarning

abbrev pub header_size : ℕ
header_size = 2

-- The loop stops with the bytes that are left.
abbrev pub stopped : List ℕ → List SplitWarning → SplitResult
stopped rest warnings = record { transactions = []; trailing_bytes = rest; warnings = warnings }

abbrev pub transaction : ℕ → ℕ → ℕ → List ℕ → RawTransaction
transaction index id lng body = record {
  transaction_id = id;
  length' = lng;
  data' = take lng body;
  raw = id ∷ lng ∷ take lng body;
  offset = index;
}

abbrev pub preceded_by : RawTransaction → SplitResult → SplitResult
preceded_by t later = record later { transactions = t ∷ later.transactions }

pub split_from : ℕ → ℕ → List ℕ → SplitResult
split_from fuel index [] = stopped [] []
split_from fuel index (id ∷ []) = stopped (id ∷ []) (truncated_header index 1 ∷ [])
split_from zero index (id ∷ lng ∷ body) = stopped (id ∷ lng ∷ body) []
split_from (suc fuel) index (id ∷ lng ∷ body) =
    let later = split_from fuel (index + (header_size + lng)) (drop lng body) in
    if ltb (length body) lng
    then stopped (id ∷ lng ∷ body) (truncated_data index id lng (length body) ∷ [])
    else preceded_by (transaction index id lng body) later

-- A transaction takes two bytes at least, so the length of the payload is fuel enough.
unfoldable pub split_transactions : List ℕ → SplitResult
split_transactions payload = split_from (length payload) 0 payload
