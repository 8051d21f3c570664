-- ===== src/Line/Stream/Conservation.antt =====
-- No byte is lost or made up by the assembler, and its buffer stays bounded.
use intelipump.Line.Frame.Reading.{parse_frame_total}
use intelipump.Line.Crc.{default_crc_candidate}
use intelipump.Line.Constants.{sf, dle}
use intelipump.Common.{
  ℕ, ◌≡◌, refl, sym, ap, ◌∙◌, inl, inr, List, [], ◌∷◌, ◌++◌, append_assoc, Bool-cases, ok, false,
  none, append-nil, arith, ltb, length, Result-cases, ◌≤◌, ◌⊎◌, Bool, true, ◌==◌, AllBelow, ◌<◌,
  All-append,
}
use intelipump.Line.Frame.{Parsed, frame, failed, parse_frame}
use intelipump.Line.Stream.{
  check_overflow, close_frame, candidate_event, AssemblerEvent, Assembler, pending_size, Fed,
  feed_byte, noise, feed,
}

-- The bytes that the events carry, in order.
abbrev pub raws : List AssemblerEvent → List ℕ
raws [] = []
raws (e ∷ es) = e.raw ++ raws es

raws-append : (es fs : List AssemblerEvent) → raws (es ++ fs) ≡ raws es ++ raws fs
raws-append [] fs = refl
raws-append (e ∷ es) fs =
    ap (◌++◌ e.raw) (raws-append es fs) ∙ sym (append_assoc e.raw (raws es) (raws fs))

-- What the assembler holds and has reported.
abbrev pub kept : Fed → List ℕ
kept r = raws r.1 ++ r.0.buf

check_overflow-kept : (a : Assembler) → kept (check_overflow a) ≡ a.buf
unfolding check_overflow
check_overflow-kept a = ground (arith, append-nil a.buf)

candidate-raw : (raw : List ℕ) (p : Parsed) → (candidate_event raw p).raw ≡ raw
unfolding candidate_event
candidate-raw raw (frame f) = refl
candidate-raw raw (failed e) = refl

-- A closed frame leaves an empty buffer and one event with its bytes.
pub close_frame_inv :
    (a : Assembler) (raw : List ℕ) {r : Fed}
    → close_frame a raw ≡ ok r
    → (e : AssemblerEvent) × (e.raw ≡ raw)
      × (r ≡ (record a { buf = []; after_dle = false }, e ∷ []))
close_frame_inv a raw h = elim (Bool-cases (ltb (length raw) 3)) [
  | inl short ↦ (
    record { kind = noise; raw = raw; parsed = none; error = none },
    refl,
    unfold close_frame in ground (arith, short),
  )
  | inr long ↦ elim (Result-cases (parse_frame none default_crc_candidate raw)) [
    | inl (p, q) ↦
        (candidate_event raw p, candidate-raw raw p, unfold close_frame in ground (arith, long, q))
    | inr (x, q) ↦ absurd (unfold close_frame in ground (arith, long, q))
  ]
]

-- A byte is stored, or it closes a frame.
pub feed_byte_cases :
    (a : Assembler) (byte : ℕ) {r : Fed}
    → feed_byte a byte ≡ ok r
    → ((d : Bool) × (r ≡ check_overflow (record a { buf = a.buf ++ byte ∷ []; after_dle = d })))
      ⊎ (close_frame a (a.buf ++ byte ∷ []) ≡ ok r)
unfolding feed_byte
feed_byte_cases a byte e = elim (Bool-cases a.after_dle) [
  | inl p ↦ inl (false, ground (arith, p))
  | inr p ↦ elim (Bool-cases (byte == dle)) [
    | inl q ↦ inl (true, ground (arith, p, q))
    | inr q ↦ elim (Bool-cases (byte == sf)) [
      | inl s ↦ inr (ground (arith, p, q, s))
      | inr s ↦ inl (a.after_dle, ground (arith, p, q, s))
    ]
  ]
]

feed_byte-kept :
    (a : Assembler) (byte : ℕ) {r : Fed} → feed_byte a byte ≡ ok r → kept r ≡ a.buf ++ byte ∷ []
feed_byte-kept a byte {r} e = elim (feed_byte_cases a byte e) [
  | inl (d, p) ↦
      ap kept p ∙ check_overflow-kept (record a { buf = a.buf ++ byte ∷ []; after_dle = d })
  | inr p ↦
      let (ev, same, q) = close_frame_inv a (a.buf ++ byte ∷ []) p in
      ap kept q ∙ append-nil (ev.raw ++ []) ∙ append-nil ev.raw ∙ same
]

-- The two halves of a successful feed.
pub feed_cons_inv :
    (a : Assembler) (byte : ℕ) (rest : List ℕ) {r : Fed}
    → feed a (byte ∷ rest) ≡ ok r
    → (now : Fed) × (later : Fed) × (feed_byte a byte ≡ ok now)
      × (feed now.0 rest ≡ ok later)
      × (r ≡ (later.0, now.1 ++ later.1))
unfolding feed
feed_cons_inv a byte rest {r} e = elim (Result-cases (feed_byte a byte)) [
  | inr (x, p) ↦ absurd (ground (arith, p))
  | inl (now, p) ↦ elim (Result-cases (feed now.0 rest)) [
    | inr (x, q) ↦ absurd (ground (arith, p, q))
    | inl (later, q) ↦ (now, later, p, q, ground (arith, p, q))
  ]
]

pub feed-cons :
    (a : Assembler) (byte : ℕ) (rest : List ℕ) {now later : Fed}
    → feed_byte a byte ≡ ok now
    → feed now.0 rest ≡ ok later
    → feed a (byte ∷ rest) ≡ ok (later.0, now.1 ++ later.1)
unfolding feed
feed-cons a byte rest p q = rw (p, q)

pub feed_nil_inv : (a : Assembler) {r : Fed} → feed a [] ≡ ok r → r ≡ (a, [])
unfolding feed
feed_nil_inv a e = ground arith

-- No byte is lost or made up: what the events carry, then what the buffer still holds, is what the
-- buffer held, then what was fed.
pub feed-conserves :
    (a : Assembler) (bytes : List ℕ) {r : Fed}
    → feed a bytes ≡ ok r
    → raws r.1 ++ r.0.buf ≡ a.buf ++ bytes
feed-conserves a [] e = ap kept (feed_nil_inv a e) ∙ sym (append-nil a.buf)
feed-conserves a (byte ∷ rest) e =
    let (now, later, p, q, same) = feed_cons_inv a byte rest e in
    ap kept same
    ∙ ap (λ w. w ++ later.0.buf) (raws-append now.1 later.1)
    ∙ append_assoc (raws now.1) (raws later.1) later.0.buf
    ∙ ap (◌++◌ (raws now.1)) (feed-conserves now.0 rest q)
    ∙ sym (append_assoc (raws now.1) now.0.buf rest)
    ∙ ap (λ w. w ++ rest) (feed_byte-kept a byte p)
    ∙ append_assoc a.buf (byte ∷ []) rest

-- The limit on what is held.
abbrev pub IsBounded : ℕ → Assembler → Type 0
IsBounded limit a = (pending_size a ≤ limit) × (a.max_buffer ≡ limit)

check_overflow-IsBounded : (a : Assembler) → IsBounded a.max_buffer (check_overflow a).0
unfolding check_overflow
check_overflow-IsBounded a = ground arith

feed_byte-IsBounded :
    (a : Assembler) (byte : ℕ) {r : Fed} → feed_byte a byte ≡ ok r → IsBounded a.max_buffer r.0
feed_byte-IsBounded a byte e = elim (feed_byte_cases a byte e) [
  | inl (d, p) ↦
      rw p (check_overflow-IsBounded (record a { buf = a.buf ++ byte ∷ []; after_dle = d }))
  | inr p ↦
      let (ev, _, q) = close_frame_inv a (a.buf ++ byte ∷ []) p in
      rw q (unfold pending_size in ground arith)
]

-- The effective size of what is held stays within the limit, whatever is fed.
pub feed-IsBounded :
    (a : Assembler) (bytes : List ℕ) (limit : ℕ) {r : Fed}
    → IsBounded limit a
    → feed a bytes ≡ ok r
    → IsBounded limit r.0
feed-IsBounded a [] limit h e = rw (feed_nil_inv a e) h
feed-IsBounded a (byte ∷ rest) limit h e =
    let (now, later, p, q, same) = feed_cons_inv a byte rest e in
    let b = feed_byte-IsBounded a byte p in
    rw same (feed-IsBounded now.0 rest limit (omega (arith, h.1, b.0), b.1 ∙ h.1) q)

pub All-suffix : (xs ys : List ℕ) → AllBelow 256 (xs ++ ys) → AllBelow 256 ys
All-suffix [] ys h = h
All-suffix (x ∷ xs) ys h = All-suffix xs ys h.1

feed_byte_total :
    (a : Assembler) (byte : ℕ)
    → AllBelow 256 (a.buf ++ byte ∷ [])
    → (r : Fed) × (feed_byte a byte ≡ ok r)
feed_byte_total a byte all = elim (Result-cases (feed_byte a byte)) [
  | inl p ↦ p
  | inr (x, p) ↦
      let (parsed, q) = parse_frame_total none default_crc_candidate (a.buf ++ byte ∷ []) all in
      absurd (unfold feed_byte close_frame in ground (arith, p, q))
]

-- Every byte string can be fed: nothing is raised.
pub feed_total :
    (a : Assembler) (bytes : List ℕ)
    → AllBelow 256 a.buf
    → AllBelow 256 bytes
    → (r : Fed) × (feed a bytes ≡ ok r)
feed_total a [] h k = ((a, []), unfold feed in refl)
feed_total a (byte ∷ rest) h k =
    let all = All-append (λ x. x < 256) a.buf (byte ∷ []) h (k.0, tt) in
    let (now, p) = feed_byte_total a byte all in
    let held = All-suffix (raws now.1) now.0.buf (rw (feed_byte-kept a byte p) all) in
    let (later, q) = feed_total now.0 rest held k.1 in
    ((later.0, now.1 ++ later.1), feed-cons a byte rest p q)
