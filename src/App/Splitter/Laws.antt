-- ===== src/App/Splitter/Laws.antt =====
-- What a split keeps of the payload, and the split of a payload that was joined.
use intelipump.Common.{
  ℕ, zero, suc, ◌+◌, ◌≤◌, ◌<◌, ◌≡◌, refl, ap, ◌⊎◌, inl, inr, List, [], ◌∷◌, ◌++◌, arith, ltb,
  ltb→lt, Bool-cases, length, take, drop, ◌∙◌, false, subst, append_assoc, length-append,
  take-append,
}
use intelipump.App.Splitter.{
  RawTransaction, truncated_header, truncated_data, SplitResult, header_size, split_from,
  transaction, preceded_by, split_transactions,
}

abbrev pub raws_of : List RawTransaction → List ℕ
raws_of [] = []
raws_of (t ∷ ts) = t.raw ++ raws_of ts

take-drop : (n : ℕ) (xs : List ℕ) → take n xs ++ drop n xs ≡ xs
take-drop zero xs = refl
take-drop (suc n) [] = refl
take-drop (suc n) (x ∷ xs) = ap (◌∷◌ x) (take-drop n xs)

length-take_le : (n : ℕ) (xs : List ℕ) → n ≤ length xs → length (take n xs) ≡ n
length-take_le zero xs h = refl
length-take_le (suc n) [] h = absurd (omega arith)
length-take_le (suc n) (x ∷ xs) h = omega (arith, length-take_le n xs (omega arith))

length-drop_le : (n : ℕ) (xs : List ℕ) → length (drop n xs) ≤ length xs
length-drop_le zero xs = omega arith
length-drop_le (suc n) [] = omega arith
length-drop_le (suc n) (x ∷ xs) = omega (arith, length-drop_le n xs)

-- The transactions stand one after the other from an index on, each with a header that says how long
-- its data is.
abbrev pub InOrder : ℕ → List RawTransaction → Type 0
InOrder index [] = Unit
InOrder index (t ∷ ts) =
    (t.offset ≡ index)
    × (t.raw ≡ t.transaction_id ∷ t.length' ∷ t.data')
    × (length t.data' ≡ t.length')
    × InOrder (index + length t.raw) ts

-- Nothing is left, without a warning; or what is left is a cut header or a cut body, with one.
abbrev pub Ends : SplitResult → Type 0
Ends r =
    (r.trailing_bytes ≡ []) × (r.warnings ≡ [])
    ⊎ ((index : ℕ) × (id : ℕ) × (r.trailing_bytes ≡ id ∷ [])
        × (r.warnings ≡ truncated_header index 1 ∷ []))
    ⊎ ((index : ℕ) × (id : ℕ) × (lng : ℕ) × (body : List ℕ) × (r.trailing_bytes ≡ id ∷ lng ∷ body)
        × (length body < lng)
        × (r.warnings ≡ truncated_data index id lng (length body) ∷ []))

abbrev SplitsAt : ℕ → List ℕ → SplitResult → Type 0
SplitsAt index rest r =
    (raws_of r.transactions ++ r.trailing_bytes ≡ rest) × InOrder index r.transactions × Ends r

precede-SplitsAt :
    (index id lng : ℕ) (body : List ℕ) (later : SplitResult)
    → lng ≤ length body
    → SplitsAt (index + (header_size + lng)) (drop lng body) later
    → SplitsAt index (id ∷ lng ∷ body) (preceded_by (transaction index id lng body) later)
precede-SplitsAt index id lng body later h (kept, order, ending) =
    let sized : length (take lng body) ≡ lng = length-take_le lng body h in
    let next : index + (header_size + lng) ≡ index + suc (suc (length (take lng body))) =
      omega (arith, sized) in
    (
      ap (λ xs. id ∷ lng ∷ xs)
          (append_assoc (take lng body) (raws_of later.transactions) later.trailing_bytes
            ∙ ap (λ xs. take lng body ++ xs) kept
            ∙ take-drop lng body),
      (refl, refl, sized, subst (λ n. InOrder n later.transactions) next order),
      ending,
    )

split_from-SplitsAt :
    (fuel index : ℕ) (rest : List ℕ)
    → length rest ≤ fuel
    → SplitsAt index rest (split_from fuel index rest)
unfolding split_from
split_from-SplitsAt fuel index [] h = (refl, tt, inl (refl, refl))
split_from-SplitsAt fuel index (id ∷ []) h = (refl, tt, inr (inl (index, id, refl, refl)))
split_from-SplitsAt zero index (id ∷ lng ∷ body) h = absurd (omega arith)
split_from-SplitsAt (suc fuel) index (id ∷ lng ∷ body) h =
    let ih =
      split_from-SplitsAt fuel (index + (header_size + lng)) (drop lng body)
        (omega (arith, length-drop_le lng body)) in
    elim (Bool-cases (ltb (length body) lng)) [
      | inl cut ↦
          rw cut
            (refl, tt, inr (inr (index, id, lng, body, refl, ltb→lt (length body) lng cut, refl)))
      | inr whole ↦ rw whole (precede-SplitsAt index id lng body _ (ground (arith, whole)) ih)
    ]

-- Splitting loses no byte and reads each transaction where it stands: the raw transactions, in order
-- from the start, then the trailing bytes, are the payload; each has its header and as much data as
-- the header says; and bytes trail, under one warning, only where they are a cut header or a cut body.
pub split_transactions-SplitsAt :
    (payload : List ℕ)
    → (raws_of (split_transactions payload).transactions
          ++ (split_transactions payload).trailing_bytes
        ≡ payload)
      × InOrder 0 (split_transactions payload).transactions
      × Ends (split_transactions payload)
unfolding split_transactions
split_transactions-SplitsAt payload = split_from-SplitsAt (length payload) 0 payload (omega arith)

-- A payload as a sender joins it, from identifiers and data.
abbrev pub join : List (ℕ × List ℕ) → List ℕ
join [] = []
join (m ∷ ms) = m.0 ∷ length m.1 ∷ (m.1 ++ join ms)

abbrev pub placed : ℕ → List (ℕ × List ℕ) → List RawTransaction
placed index [] = []
placed index (m ∷ ms) =
    record {
      transaction_id = m.0;
      length' = length m.1;
      data' = m.1;
      raw = m.0 ∷ length m.1 ∷ m.1;
      offset = index;
    }
    ∷ placed (index + (header_size + length m.1)) ms

drop-append : (xs ys : List ℕ) → drop (length xs) (xs ++ ys) ≡ ys
drop-append [] ys = refl
drop-append (x ∷ xs) ys = drop-append xs ys

split_from-join :
    (fuel index : ℕ) (ms : List (ℕ × List ℕ))
    → length (join ms) ≤ fuel
    → split_from fuel index (join ms)
      ≡ record { transactions = placed index ms; trailing_bytes = []; warnings = [] }
unfolding split_from
split_from-join fuel index [] h = refl
split_from-join zero index (m ∷ ms) h = absurd (omega arith)
split_from-join (suc fuel) index (m ∷ ms) h =
    let size : length (m.1 ++ join ms) ≡ length m.1 + length (join ms) =
      length-append {0} m.1 (join ms) in
    let whole : ltb (length (m.1 ++ join ms)) (length m.1) ≡ false = ground (arith, size) in
    rw
      (
        whole,
        take-append m.1 (join ms),
        drop-append m.1 (join ms),
        split_from-join fuel (index + (header_size + length m.1)) ms (omega (arith, size, h)),
      )
      refl

-- The transactions that a sender joined come back, each at its place, with nothing left over and no
-- warning.
pub split-join :
    (ms : List (ℕ × List ℕ))
    → split_transactions (join ms)
      ≡ record { transactions = placed 0 ms; trailing_bytes = []; warnings = [] }
unfolding split_transactions
split-join ms = split_from-join (length (join ms)) 0 ms (omega arith)
