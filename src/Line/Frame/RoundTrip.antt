-- ===== src/Line/Frame/RoundTrip.antt =====
-- A frame that the builders return is parsed back to what it was built from.
use intelipump.Common.Bits.{bit_or_disjoint}
use intelipump.Line.Control.Laws.{
  compose_data_bound, compose-data_block, compose_reads, compose_plain,
}
use intelipump.Line.Control.{
  extract_sequence, classify_control, is_unknown, ControlType, data_block, compose_control,
}
use intelipump.Common.{
  ℕ, ◌+◌, ◌-◌, ◌≤◌, ◌≡◌, refl, ap, ◌∙◌, inl, inr, false, Option, List, [], ◌∷◌, ◌++◌, arith, ◌==◌,
  Bool-cases, length, take, length-append, get_or, get_or-append, take-append, sym, ◌≢◌, true,
  append_assoc, ==_iff, ok, some, ltb, drop, ◌/◌, ◌%◌, subst, Result-cases, ◌*◌,
}
use intelipump.Line.Constants.{dle, sf, etx, max_buffer_size, min_data_frame_size, data_base}
use intelipump.Line.Crc.{CrcFn, CrcCandidate, crc_from_le_bytes, crc_bytes_le}
use intelipump.Line.Escaping.{escape_dle, unescape_dle}
use intelipump.Line.Escaping.Laws.{ends_in_dle, escape-cons, unescape-escape}
use intelipump.Line.Frame.{
  control_frame, data_frame, parse_buffer, choose_crc, from_end, drop_end, parse_frame, Parsed,
  frame, build_data_frame, DartLineFrame, build_control_frame,
}

pub escape-append : (xs ys : List ℕ) → escape_dle (xs ++ ys) ≡ escape_dle xs ++ escape_dle ys
unfolding escape_dle
escape-append [] ys = refl
escape-append (x ∷ xs) ys = elim (Bool-cases (x == sf)) [
  | inl h ↦ rw (h, escape-append xs ys)
  | inr h ↦ rw (h, escape-append xs ys)
]

pub length-le-escape : (xs : List ℕ) → length xs ≤ length (escape_dle xs)
unfolding escape_dle
length-le-escape [] = omega arith
length-le-escape (x ∷ xs) = ground (arith, length-le-escape xs)

pub length-escape-le : (xs : List ℕ) → length (escape_dle xs) ≤ 2 * length xs
unfolding escape_dle
length-escape-le [] = omega arith
length-escape-le (x ∷ xs) = ground (arith, length-escape-le xs)

ends_in_dle-append : (xs : List ℕ) (x : ℕ) → ends_in_dle (xs ++ x ∷ []) ≡ (x == dle)
ends_in_dle-append [] x = refl
ends_in_dle-append (y ∷ []) x = refl
ends_in_dle-append (y ∷ z ∷ xs) x = ends_in_dle-append (z ∷ xs) x

pub from_end-append :
    (k : ℕ) (xs ys : List ℕ) → k ≤ length ys → from_end k (xs ++ ys) ≡ from_end k ys
from_end-append k xs ys h =
    ap (λ i. get_or (xs ++ ys) i 0) place ∙ get_or-append xs ys (length ys - k) 0
  where
    place : length (xs ++ ys) - k ≡ length xs + (length ys - k)
    place = omega (arith, length-append {0} xs ys)

drop_end-append : (k : ℕ) (xs ys : List ℕ) → length ys ≡ k → drop_end k (xs ++ ys) ≡ xs
drop_end-append k xs ys h = ap (λ i. take i (xs ++ ys)) place ∙ take-append xs ys
  where
    place : length (xs ++ ys) - k ≡ length xs
    place = omega (arith, length-append {0} xs ys)

-- Appending one byte that needs no escape.
escape-snoc :
    (xs : List ℕ) (x : ℕ) → (x == sf) ≡ false → escape_dle (xs ++ x ∷ []) ≡ escape_dle xs ++ x ∷ []
escape-snoc xs x p =
    escape-append xs (x ∷ []) ∙ ap (◌++◌ (escape_dle xs)) (escape-cons x [] p ∙ ap (◌∷◌ x) nothing)
  where
    nothing : escape_dle [] ≡ []
    nothing = unfold escape_dle in refl

module _ (crc_fn : Option CrcFn) (candidate : CrcCandidate) where
  parse_accepted :
      (raw buffer : List ℕ)
      → 3 ≤ length raw
      → from_end 1 raw ≡ sf
      → from_end 2 raw ≢ dle
      → unescape_dle (drop_end 1 raw) ≡ ok buffer
      → parse_frame crc_fn candidate raw ≡ parse_buffer (choose_crc crc_fn candidate) raw buffer
  unfolding parse_frame
  parse_accepted raw buffer long ends plain e = ground arith

  -- A wire image of an escaped buffer reaches the part of the parser that follows unescaping.
  parse_escaped :
      (xs : List ℕ) (x : ℕ)
      → 1 ≤ length xs
      → (x == sf) ≡ false
      → (x == dle) ≡ false
      → parse_frame crc_fn candidate (escape_dle (xs ++ x ∷ []) ++ sf ∷ [])
        ≡ parse_buffer
            (choose_crc crc_fn candidate)
            (escape_dle (xs ++ x ∷ []) ++ sf ∷ [])
            (xs ++ x ∷ [])
  parse_escaped xs x some_byte p q =
      parse_accepted _ (xs ++ x ∷ []) long (from_end-append 1 body (sf ∷ []) (omega arith))
        (λ e. cc (not_dle e)) opened
    where
      body : List ℕ
      body = escape_dle (xs ++ x ∷ [])

      long : 3 ≤ length (body ++ sf ∷ [])
      long = omega (
        arith,
        length-append {0} body (sf ∷ []),
        length-le-escape (xs ++ x ∷ []),
        length-append {0} xs (x ∷ []),
      )

      second : from_end 2 (body ++ sf ∷ []) ≡ x
      second =
          ap (λ b. from_end 2 (b ++ sf ∷ [])) (escape-snoc xs x p)
          ∙ ap (from_end 2) (append_assoc (escape_dle xs) (x ∷ []) (sf ∷ []))
          ∙ from_end-append 2 (escape_dle xs) (x ∷ sf ∷ []) (omega arith)

      not_dle : from_end 2 (body ++ sf ∷ []) ≡ dle → false ≡ true
      not_dle e = sym q ∙ (==_iff x dle).1 (sym second ∙ e)

      opened : unescape_dle (drop_end 1 (body ++ sf ∷ [])) ≡ ok (xs ++ x ∷ [])
      opened =
          ap unescape_dle (drop_end-append 1 body (sf ∷ []) refl)
          ∙ unescape-escape (xs ++ x ∷ [])
          ∙ rw (ends_in_dle-append xs x, q)

-- The buffer of a data frame, taken apart by the parser.
module _ (fn : CrcFn) (raw payload : List ℕ) (address control lo hi : ℕ) where
  abbrev whole : List ℕ
  whole = address ∷ control ∷ (payload ++ lo ∷ hi ∷ etx ∷ [])

  abbrev read_back : ControlType → ℕ → ℕ → Parsed
  read_back control_type sequence received = frame (record {
    address = address;
    control = control;
    control_type = control_type;
    sequence = sequence;
    payload = payload;
    received_crc = some received;
    computed_crc = some (fn (address ∷ control ∷ payload));
    crc_valid = some (fn (address ∷ control ∷ payload) == received);
    raw_frame = raw;
    unknown_control = is_unknown control_type;
  })

  data_frame_accepted :
      (buffer : List ℕ) (control_type : ControlType) (sequence received : ℕ)
      → 5 ≤ length buffer
      → from_end 1 buffer ≡ etx
      → from_end 2 buffer ≡ hi
      → from_end 3 buffer ≡ lo
      → drop 2 (drop_end 3 buffer) ≡ payload
      → crc_from_le_bytes lo hi ≡ ok received
      → data_frame fn raw buffer control_type address control sequence
        ≡ ok (read_back control_type sequence received)
  unfolding data_frame
  data_frame_accepted buffer t s received long e1 e2 e3 e4 r = rw (e1, e2, e3, e4, r, short) refl
    where
      short : ltb (length buffer) min_data_frame_size ≡ false
      short = ground arith

  parse_whole :
      (control_type : ControlType) (sequence received : ℕ)
      → length whole ≤ max_buffer_size
      → classify_control control ≡ ok control_type
      → extract_sequence control ≡ ok sequence
      → crc_from_le_bytes lo hi ≡ ok received
      → parse_buffer fn raw whole ≡ ok (read_back control_type sequence received)
  unfolding parse_buffer
  parse_whole t s received fits p q r =
      rw (p, q)
        (ground (
          arith,
          data_frame_accepted whole t s received long (from_end-append 1 head tail3 (omega arith))
              (from_end-append 2 head tail3 (omega arith))
              (from_end-append 3 head tail3 (omega arith)) body r,
          long,
        ))
    where
      tail3 : List ℕ
      tail3 = lo ∷ hi ∷ etx ∷ []

      head : List ℕ
      head = address ∷ control ∷ payload

      long : 5 ≤ length whole
      long = omega (arith, length-append {0} payload tail3)

      body : drop 2 (drop_end 3 whole) ≡ payload
      body = ap (drop 2) (drop_end-append 3 head tail3 refl)

module _ (crc_fn : Option CrcFn) (candidate : CrcCandidate) (address sequence : ℕ) where
  abbrev fn : CrcFn
  fn = choose_crc crc_fn candidate

  -- The checksum that the sender writes.
  abbrev pub sent_crc : List ℕ → ℕ
  sent_crc payload = fn (address ∷ (data_base + sequence) ∷ payload)

  abbrev pub sent_buffer : List ℕ → ℕ → ℕ → List ℕ
  sent_buffer payload lo hi = address ∷ (data_base + sequence) ∷ (payload ++ lo ∷ hi ∷ etx ∷ [])

  abbrev pub low_crc : List ℕ → ℕ
  low_crc payload = sent_crc payload % 256

  abbrev pub high_crc : List ℕ → ℕ
  high_crc payload = sent_crc payload / 256 % 256

  abbrev pub sent : List ℕ → List ℕ
  sent payload = sent_buffer payload (low_crc payload) (high_crc payload)

  -- What a successful build has done.
  pub build_data_inv :
      (payload wire : List ℕ)
      → build_data_frame crc_fn candidate address sequence payload ≡ ok wire
      → (crc_from_le_bytes (low_crc payload) (high_crc payload) ≡ ok (sent_crc payload))
        × (length (sent payload) ≤ max_buffer_size)
        × (wire ≡ escape_dle (sent payload) ++ sf ∷ [])
        × (sequence ≤ 15)
  unfolding build_data_frame crc_bytes_le crc_from_le_bytes
  build_data_inv payload wire e = ground (
    arith,
    compose-data_block sequence,
    compose_data_bound sequence {c = 0},
    bit_or_disjoint 8 (low_crc payload) (high_crc payload),
  )

  -- The frame that a receiver sees.
  abbrev pub received : List ℕ → List ℕ → DartLineFrame
  received payload wire = record {
    address = address;
    control = data_base + sequence;
    control_type = data_block;
    sequence = sequence;
    payload = payload;
    received_crc = some (sent_crc payload);
    computed_crc = some (sent_crc payload);
    crc_valid = some true;
    raw_frame = wire;
    unknown_control = false;
  }

  -- The wire image of a data buffer, whatever its two checksum bytes.
  parse_sent :
      (payload : List ℕ) (lo hi : ℕ)
      → parse_frame crc_fn candidate (escape_dle (sent_buffer payload lo hi) ++ sf ∷ [])
        ≡ parse_buffer fn
            (escape_dle (sent_buffer payload lo hi) ++ sf ∷ [])
            (sent_buffer payload lo hi)
  parse_sent payload lo hi =
      subst
        (λ b.
          parse_frame crc_fn candidate (escape_dle b ++ sf ∷ [])
          ≡ parse_buffer fn (escape_dle b ++ sf ∷ []) b)
        joined (parse_escaped crc_fn candidate before etx (omega arith) refl refl)
    where
      before : List ℕ
      before = address ∷ (data_base + sequence) ∷ (payload ++ lo ∷ hi ∷ [])

      joined : before ++ etx ∷ [] ≡ sent_buffer payload lo hi
      joined =
          ap (λ b. address ∷ (data_base + sequence) ∷ b)
            (append_assoc payload (lo ∷ hi ∷ []) (etx ∷ []))

  -- A data frame that is built is parsed back to its address, number and payload, with a valid
  -- checksum, whatever the payload and the checksum function are.
  pub parse-build_data :
      (payload wire : List ℕ)
      → build_data_frame crc_fn candidate address sequence payload ≡ ok wire
      → parse_frame crc_fn candidate wire ≡ ok (frame (received payload wire))
  parse-build_data payload wire e =
      let (crc_ok, fits, image, small) = build_data_inv payload wire e in
      let (_, class, number) =
        compose_reads sequence data_block (compose-data_block sequence small) in
      rw image (
        parse_sent payload (low_crc payload) (high_crc payload)
        ∙ parse_whole fn (escape_dle (sent payload) ++ sf ∷ []) payload address
            (data_base + sequence) (low_crc payload) (high_crc payload) data_block sequence
            (sent_crc payload) fits class number crc_ok
        ∙ ground (arith, ==_iff (sent_crc payload) (sent_crc payload)))

parse_two :
    (fn : CrcFn) (raw : List ℕ) (address control : ℕ) {t : ControlType} {s : ℕ}
    → classify_control control ≡ ok t
    → extract_sequence control ≡ ok s
    → parse_buffer fn raw (address ∷ control ∷ []) ≡ ok (control_frame raw t address control s)
unfolding parse_buffer
parse_two fn raw address control p q = rw (p, q)

-- A control frame that is built is parsed back to its address, family and number.
pub parse-build_control :
    (crc_fn : Option CrcFn) (candidate : CrcCandidate) (address sequence : ℕ)
    (control_type : ControlType) (wire : List ℕ)
    → build_control_frame address control_type sequence ≡ ok wire
    → (control : ℕ) × (compose_control control_type sequence ≡ ok control)
      × (parse_frame crc_fn candidate wire
          ≡ ok (control_frame wire control_type address control sequence))
      × (control_type ≢ data_block)
unfolding build_control_frame
parse-build_control crc_fn candidate address sequence t wire e =
    elim (Result-cases (compose_control t sequence)) [
      | inl (c, p) ↦
          let (plain, no_dle) = compose_plain t sequence c p in
          let (_, class, number) = compose_reads sequence t p in
          let image : wire ≡ escape_dle (address ∷ c ∷ []) ++ sf ∷ [] = ground (arith, p) in
          let not_data : t ≢ data_block = ground arith in
          (
            c,
            p,
            rw image (
                parse_escaped crc_fn candidate (address ∷ []) c (omega arith) plain no_dle
                ∙ parse_two _ _ address c class number),
            not_data,
          )
      | inr (x, p) ↦ absurd (ground (arith, p))
    ]
