-- ===== src/App/Splitter/Examples.antt =====
-- Payloads that are whole, cut in a header and cut in a body.
use intelipump.Common.{ℕ, ◌≡◌, refl, List, [], ◌∷◌, ◌++◌, length}
use intelipump.App.Splitter.{truncated_header, truncated_data, split_from, split_transactions}
use intelipump.App.Splitter.Laws.{raws_of, InOrder, Ends, split_transactions-SplitsAt}

abbrev status_and_nozzle : List ℕ
status_and_nozzle = 0x01 ∷ 1 ∷ 0x01 ∷ 0x03 ∷ 4 ∷ 0 ∷ 0x11 ∷ 0 ∷ 0x11 ∷ []

two_transactions : length (split_transactions status_and_nozzle).transactions ≡ 2
unfolding split_transactions split_from
two_transactions = refl

cut_header : (split_transactions (0x01 ∷ 1 ∷ 0x02 ∷ 0x03 ∷ [])).warnings ≡ truncated_header 3 1 ∷ []
unfolding split_transactions split_from
cut_header = refl

cut_body : (split_transactions (0x03 ∷ 4 ∷ 0 ∷ [])).warnings ≡ truncated_data 0 0x03 4 1 ∷ []
unfolding split_transactions split_from
cut_body = refl

abbrev nozzle_cut : List ℕ
nozzle_cut = 0x01 ∷ 1 ∷ 0x01 ∷ 0x03 ∷ 4 ∷ 0 ∷ []

split_transactions-SplitsAt_example :
    (raws_of (split_transactions nozzle_cut).transactions
        ++ (split_transactions nozzle_cut).trailing_bytes
      ≡ nozzle_cut)
    × InOrder 0 (split_transactions nozzle_cut).transactions
    × Ends (split_transactions nozzle_cut)
split_transactions-SplitsAt_example = split_transactions-SplitsAt nozzle_cut
