-- ===== src/Line/Frame/Reading.antt =====
-- On bytes the parser always returns a frame or a parse error.
use intelipump.Line.Control.Laws.{compose_ack}
use intelipump.Common.{
  ℕ, zero, suc, ◌<◌, ◌≡◌, refl, ◌≢◌, inl, inr, Option, List, [], ◌∷◌, arith, take, AllBelow, get_or,
  Result, ok, err, Result-cases, true, leb,
}
use intelipump.Line.Constants.{LineError}
use intelipump.Line.Control.{ControlType, classify_control, extract_sequence}
use intelipump.Line.Crc.{CrcFn, CrcCandidate, crc_from_le_bytes}
use intelipump.Line.Escaping.{escape_dle, unescape_dle}
use intelipump.Line.Escaping.Laws.{escape-unescape}
use intelipump.Line.Frame.{
  validate_address, data_frame, parse_buffer, parse_body, Parsed, choose_crc, from_end, drop_end,
  parse_frame, build_control_frame, build_ack,
}

of_escaped : (xs : List ℕ) → AllBelow 256 (escape_dle xs) → AllBelow 256 xs
unfolding escape_dle
of_escaped [] h = tt
of_escaped (x ∷ xs) h = ground (arith, of_escaped xs)

get_or-lt : (xs : List ℕ) (i : ℕ) → AllBelow 256 xs → get_or xs i 0 < 256
get_or-lt [] i h = omega arith
get_or-lt (x ∷ xs) zero h = h.0
get_or-lt (x ∷ xs) (suc i) h = get_or-lt xs i h.1

take-AllBelow : (n : ℕ) (xs : List ℕ) → AllBelow 256 xs → AllBelow 256 (take n xs)
take-AllBelow zero xs h = tt
take-AllBelow (suc n) [] h = tt
take-AllBelow (suc n) (x ∷ xs) h = (h.0, take-AllBelow n xs h.1)

classify_total : (c : ℕ) → c < 256 → (t : ControlType) × (classify_control c ≡ ok t)
classify_total c h = elim (Result-cases (classify_control c)) [
  | inl p ↦ p
  | inr (x, e) ↦ absurd (unfold classify_control in ground arith)
]

extract_total : (c : ℕ) → c < 256 → (s : ℕ) × (extract_sequence c ≡ ok s)
extract_total c h = elim (Result-cases (extract_sequence c)) [
  | inl p ↦ p
  | inr (x, e) ↦ absurd (unfold extract_sequence in ground arith)
]

crc_total : (lo hi : ℕ) → lo < 256 → hi < 256 → (c : ℕ) × (crc_from_le_bytes lo hi ≡ ok c)
crc_total lo hi h k = elim (Result-cases (crc_from_le_bytes lo hi)) [
  | inl p ↦ p
  | inr (x, e) ↦ absurd (unfold crc_from_le_bytes in ground arith)
]

abbrev Returns : Result LineError Parsed → Type 0
Returns r = (p : Parsed) × (r ≡ ok p)

Returns-ok : (r : Result LineError Parsed) → ((e : LineError) → r ≢ err e) → Returns r
Returns-ok (ok p) h = (p, refl)
Returns-ok (err e) h = absurd (h e refl)

module _ (fn : CrcFn) (raw : List ℕ) where
  data_frame_total :
      (buffer : List ℕ) (t : ControlType) (a c s : ℕ)
      → AllBelow 256 buffer
      → (e : LineError) → data_frame fn raw buffer t a c s ≢ err e
  unfolding data_frame
  data_frame_total buffer t a c s all e =
      let (crc, p) =
        crc_total (from_end 3 buffer) (from_end 2 buffer) (get_or-lt buffer _ all)
          (get_or-lt buffer _ all) in
      rw p (ground arith)

  parse_buffer_total :
      (buffer : List ℕ) → AllBelow 256 buffer → (e : LineError) → parse_buffer fn raw buffer ≢ err e
  unfolding parse_buffer
  parse_buffer_total buffer all e =
      let control : ℕ = get_or buffer 1 0 in
      let (t, p) = classify_total control (get_or-lt buffer 1 all) in
      let (s, q) = extract_total control (get_or-lt buffer 1 all) in
      rw (p, q) (ground (arith, data_frame_total buffer t (get_or buffer 0 0) control s all e))

  parse_body_total :
      (wire : List ℕ)
      → AllBelow 256 wire
      → (r : Result LineError (List ℕ)) → unescape_dle wire ≡ r
      → (e : LineError) → parse_body fn raw r ≢ err e
  unfolding parse_body
  parse_body_total wire all (ok buffer) p e =
      parse_buffer_total buffer (of_escaped buffer (rw (escape-unescape wire buffer p) all)) e
  parse_body_total wire all (err x) p e = ground arith

-- Whatever bytes arrive, the parser returns a frame or a parse error: it raises nothing.
pub parse_frame_total :
    (crc_fn : Option CrcFn) (candidate : CrcCandidate) (raw : List ℕ)
    → AllBelow 256 raw
    → (p : Parsed) × (parse_frame crc_fn candidate raw ≡ ok p)
unfolding parse_frame
parse_frame_total crc_fn candidate raw all = Returns-ok _ λ e.
    let body =
      parse_body_total (choose_crc crc_fn candidate) raw (drop_end 1 raw) (take-AllBelow _ raw all)
        (unescape_dle (drop_end 1 raw)) refl e in
    ground (arith, body)

-- An ACK can be built for every address and sequence number that a frame can carry.
pub build_ack_total :
    (address sequence : ℕ)
    → address < 256
    → sequence < 16
    → (wire : List ℕ) × (build_ack address sequence ≡ ok wire)
unfolding build_ack build_control_frame validate_address
build_ack_total address sequence a h =
    let valid : leb address 0xFF ≡ true = ground (arith, a) in
    rw (build_control_frame, compose_ack sequence h, validate_address, valid) (_, refl)
