-- ===== src/Line/Stream/Splitting.antt =====
-- A data byte DLE before a data byte SF makes the assembler cut a well-formed frame in two.
use intelipump.Line.Escaping.Laws.{escape-cons_sf, escape-cons}
use intelipump.Line.Escaping.{escape_dle}
use intelipump.Line.Frame.RoundTrip.{
  high_crc, low_crc, received, from_end-append, escape-append, length-escape-le, sent,
  build_data_inv, parse-build_data,
}
use intelipump.Line.Stream.Assembly.{
  feed_byte-escaped, NoDle, feed_byte-dle, holding, IsIdle, feed-append, store_all,
}
use intelipump.Common.{
  ℕ, ◌≡◌, ap, none, some, List, [], ◌∷◌, ◌++◌, ok, ◌+◌, ◌≤◌, refl, ◌∙◌, true, false, append_assoc,
  arith, length, length-append, AllBelow, sym,
}
use intelipump.Line.Constants.{dle, sf, etx, data_base}
use intelipump.Line.Crc.{default_crc_candidate}
use intelipump.Line.Frame.{invalid_terminator, failed, parse_frame, frame, build_data_frame}
use intelipump.Line.Stream.{
  close_frame, candidate_event, rejected, AssemblerEvent, Assembler, Fed, feed, feed_byte,
}
use intelipump.Line.Stream.Conservation.{feed-cons, All-suffix, feed_total}

-- What is reported for the beginning of the frame.
abbrev pub cut_event : List ℕ → AssemblerEvent
cut_event body = record {
  kind = rejected;
  raw = body ++ dle ∷ dle ∷ sf ∷ [];
  parsed = none;
  error = some (record { code = invalid_terminator; raw = body ++ dle ∷ dle ∷ sf ∷ [] });
}

parse_cut :
    (body : List ℕ)
    → parse_frame none default_crc_candidate (body ++ dle ∷ dle ∷ sf ∷ [])
      ≡ ok (failed (record { code = invalid_terminator; raw = body ++ dle ∷ dle ∷ sf ∷ [] }))
unfolding parse_frame
parse_cut body = ground (
  arith,
  from_end-append 1 body (dle ∷ dle ∷ sf ∷ []) (omega arith),
  from_end-append 2 body (dle ∷ dle ∷ sf ∷ []) (omega arith),
  length-append {0} body (dle ∷ dle ∷ sf ∷ []),
)

-- The bytes DLE DLE SF close a frame that ends in them, and `parse_frame` rejects it.
feed_cut :
    (a : Assembler) (body : List ℕ)
    → a.buf ≡ []
    → a.after_dle ≡ false
    → length body + 2 ≤ a.max_buffer
    → feed (holding a body false) (dle ∷ dle ∷ sf ∷ []) ≡ ok (a, cut_event body ∷ [])
feed_cut a body idle flag room =
    feed-cons (holding a body false) dle (dle ∷ sf ∷ [])
      (feed_byte-dle (holding a body false) refl room)
      (feed-cons _ dle (sf ∷ [])
        (feed_byte-escaped (holding a (body ++ dle ∷ []) true) dle refl
          (omega (arith, length-append {0} body (dle ∷ []))))
        (feed-cons _ sf [] closed finish))
  where
    text : (body ++ dle ∷ []) ++ dle ∷ [] ≡ body ++ dle ∷ dle ∷ []
    text = append_assoc body (dle ∷ []) (dle ∷ [])

    whole : ((body ++ dle ∷ []) ++ dle ∷ []) ++ sf ∷ [] ≡ body ++ dle ∷ dle ∷ sf ∷ []
    whole = ap (λ b. b ++ sf ∷ []) text ∙ append_assoc body (dle ∷ dle ∷ []) (sf ∷ [])

    closed :
        feed_byte (holding a ((body ++ dle ∷ []) ++ dle ∷ []) false) sf
        ≡ ok (a, cut_event body ∷ [])
    closed =
        unfold feed_byte close_frame candidate_event in
        rw whole
          (ground (arith, idle, flag, parse_cut body, length-append {0} body (dle ∷ dle ∷ sf ∷ [])))

    finish : feed a [] ≡ ok (a, [])
    finish = unfold feed in refl

module _ (address sequence : ℕ) (before after wire : List ℕ) where
  -- The defect: let the payload of a built data frame hold a DLE followed by an SF, with no DLE before
  -- them. The parser accepts the wire image whole, but the assembler that is fed it ends the frame
  -- at that SF: its first event rejects the beginning of the frame for its terminator.
  pub feed_splits_frame :
      (a : Assembler)
      → IsIdle a
      → build_data_frame none default_crc_candidate address sequence (before ++ dle ∷ sf ∷ after)
        ≡ ok wire
      → NoDle (address ∷ (data_base + sequence) ∷ before)
      → AllBelow 256 wire
      → (r : Fed) × (rest : List AssemblerEvent) × (feed a wire ≡ ok r)
        × (r.1 ≡ cut_event (escape_dle (address ∷ (data_base + sequence) ∷ before)) ∷ rest)
        × (parse_frame none default_crc_candidate wire
            ≡ ok (
                frame (
                  received none default_crc_candidate address sequence
                    (before ++ dle ∷ sf ∷ after)
                    wire)))
  feed_splits_frame a idle e n bytes =
      let (_, fits, image, _) =
        build_data_inv none default_crc_candidate address sequence payload wire e in
      let stored =
        store_all a head idle n
          (ground (arith, fits, shape, length-append {0} head (dle ∷ sf ∷ tail_of))) in
      let room : length (escape_dle head) + 2 ≤ a.max_buffer = omega (
        arith,
        idle.room,
        fits,
        ap length shape,
        length-append {0} head (dle ∷ sf ∷ tail_of),
        length-escape-le head,
      ) in
      let cut = feed_cut a (escape_dle head) idle.empty idle.flag room in
      let split = image ∙ split_image in
      let (t, after_cut) =
        feed_total a suffix (rw idle.empty tt)
          (All-suffix (escape_dle head ++ dle ∷ dle ∷ sf ∷ []) suffix (rw split at bytes)) in
      (
        (t.0, cut_event (escape_dle head) ∷ t.1),
        t.1,
        ap (feed a) split
            ∙ feed-append (escape_dle head ++ dle ∷ dle ∷ sf ∷ []) suffix a
                (feed-append (escape_dle head) (dle ∷ dle ∷ sf ∷ []) a stored cut) after_cut,
        refl,
        parse-build_data none default_crc_candidate address sequence payload wire e,
      )
    where
      payload : List ℕ
      payload = before ++ dle ∷ sf ∷ after

      head : List ℕ
      head = address ∷ (data_base + sequence) ∷ before

      tail_of : List ℕ
      tail_of =
          after
          ++ low_crc none default_crc_candidate address sequence payload
            ∷ high_crc none default_crc_candidate address sequence payload
            ∷ etx
            ∷ []

      suffix : List ℕ
      suffix = escape_dle tail_of ++ sf ∷ []

      shape : sent none default_crc_candidate address sequence payload ≡ head ++ dle ∷ sf ∷ tail_of
      shape =
          ap (λ b. address ∷ (data_base + sequence) ∷ b) (append_assoc before (dle ∷ sf ∷ after) _)

      split_image :
          escape_dle (sent none default_crc_candidate address sequence payload) ++ sf ∷ []
          ≡ (escape_dle head ++ dle ∷ dle ∷ sf ∷ []) ++ suffix
      split_image =
          ap (λ b. escape_dle b ++ sf ∷ []) shape
          ∙ ap (λ b. b ++ sf ∷ []) (escape-append head (dle ∷ sf ∷ tail_of))
          ∙ ap (λ b. (escape_dle head ++ b) ++ sf ∷ [])
              (escape-cons dle (sf ∷ tail_of) refl ∙ ap (◌∷◌ dle) (escape-cons_sf tail_of))
          ∙ append_assoc (escape_dle head) (dle ∷ dle ∷ sf ∷ escape_dle tail_of) (sf ∷ [])
          ∙ sym (append_assoc (escape_dle head) (dle ∷ dle ∷ sf ∷ []) suffix)
