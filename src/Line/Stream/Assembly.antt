-- ===== src/Line/Stream/Assembly.antt =====
-- What the assembler makes of the wire images that the builder produces.
use intelipump.Line.Frame.RoundTrip.{
  parse-build_data, length-le-escape, build_data_inv, received, sent,
}
use intelipump.Line.Crc.{default_crc_candidate}
use intelipump.Line.Frame.{frame, parse_frame, DartLineFrame, build_data_frame}
use intelipump.Line.Escaping.Laws.{escape-cons, escape-cons_sf}
use intelipump.Line.Escaping.{escape_dle}
use intelipump.Line.Stream.Conservation.{feed-cons, feed_cons_inv, feed_nil_inv}
use intelipump.Common.{
  ℕ, ◌+◌, ◌≤◌, ◌≡◌, Bool, true, false, List, [], ◌∷◌, ◌++◌, arith, ◌==◌, length, length-append, All,
  ok, ◌*◌, sym, ap, ◌∙◌, inl, inr, append_assoc, Bool-cases, refl, none, some, append-nil, ==_iff,
  Result,
}
use intelipump.Line.Constants.{dle, sf, LineError, max_buffer_size}
use intelipump.Line.Stream.{
  check_overflow, close_frame, candidate_event, Assembler, Fed, feed_byte, feed, assembled,
  AssemblerEvent, default_max_buffer,
}

-- No byte is DLE.
abbrev pub NoDle : List ℕ → Type 0
NoDle = All (λ x. (x == dle) ≡ false)

pub feed-append :
    (xs ys : List ℕ) (a : Assembler) {r t : Fed}
    → feed a xs ≡ ok r
    → feed r.0 ys ≡ ok t
    → feed a (xs ++ ys) ≡ ok (t.0, r.1 ++ t.1)
feed-append [] ys a {r} {t} p q = rw (feed_nil_inv a p) (rw (ap (λ w. w.0) (feed_nil_inv a p)) at q)
feed-append (x ∷ xs) ys a {r} {t} p q =
    let (now, later, p₁, p₂, same) = feed_cons_inv a x xs p in
    feed-cons a x (xs ++ ys) p₁ (feed-append xs ys now.0 p₂ (rw same at q))
    ∙ ap (λ es. ok (t.0, es))
        (sym (append_assoc now.1 later.1 t.1) ∙ ap (λ w. w.1 ++ t.1) (sym same))

-- A byte that is stored without filling the buffer.
stored :
    (a : Assembler) (x : ℕ) (d : Bool)
    → length a.buf + 2 ≤ a.max_buffer
    → check_overflow (record a { buf = a.buf ++ x ∷ []; after_dle = d })
      ≡ (record a { buf = a.buf ++ x ∷ []; after_dle = d }, [])
unfolding check_overflow
stored a x d room = ground (arith, length-append {0} a.buf (x ∷ []))

-- A byte that is neither DLE nor SF, outside an escape.
feed_byte-plain :
    (a : Assembler) (x : ℕ)
    → a.after_dle ≡ false
    → (x == dle) ≡ false
    → (x == sf) ≡ false
    → length a.buf + 2 ≤ a.max_buffer
    → feed_byte a x ≡ ok (record a { buf = a.buf ++ x ∷ []; after_dle = false }, [])
unfolding feed_byte
feed_byte-plain a x p q s room = ground (arith, p, q, s, stored a x false room)

pub feed_byte-dle :
    (a : Assembler)
    → a.after_dle ≡ false
    → length a.buf + 2 ≤ a.max_buffer
    → feed_byte a dle ≡ ok (record a { buf = a.buf ++ dle ∷ []; after_dle = true }, [])
unfolding feed_byte
feed_byte-dle a p room = ground (arith, p, stored a dle true room)

pub feed_byte-escaped :
    (a : Assembler) (x : ℕ)
    → a.after_dle ≡ true
    → length a.buf + 2 ≤ a.max_buffer + 1
    → feed_byte a x ≡ ok (record a { buf = a.buf ++ x ∷ []; after_dle = false }, [])
unfolding feed_byte check_overflow
feed_byte-escaped a x p room = ground (arith, p, length-append {0} a.buf (x ∷ []))

abbrev pub holding : Assembler → List ℕ → Bool → Assembler
holding a b d = record a { buf = b; after_dle = d }

holding_self : (a : Assembler) → a.after_dle ≡ false → a ≡ holding a (a.buf ++ []) false
holding_self a p = ground (arith, append-nil a.buf)

-- Two stores, then the rest.
module _ (a : Assembler) (rest : List ℕ) {later : Fed} where
  feed_two :
      (x y : ℕ) {now next : Assembler}
      → feed_byte a x ≡ ok (now, [])
      → feed_byte now y ≡ ok (next, [])
      → feed next rest ≡ ok later
      → feed a (x ∷ y ∷ rest) ≡ ok later
  feed_two x y {now} p q r = feed-cons a x (y ∷ rest) p (feed-cons now y rest q r)

abbrev Regrouped : (a : Assembler) (b xs ys : List ℕ) → Type 0
Regrouped a b xs ys =
    ◌≡◌ {A = Result LineError Fed} (ok (holding a ((b ++ xs) ++ ys) false, []))
      (ok (holding a (b ++ (xs ++ ys)) false, []))

regroup : (a : Assembler) (b xs ys : List ℕ) → Regrouped a b xs ys
regroup a b xs ys = ap (λ w. ok (holding a w false, [])) (append_assoc b xs ys)

-- Escaped text without DLE is stored as it stands.
feed-escape :
    (xs : List ℕ) (a : Assembler)
    → NoDle xs
    → a.after_dle ≡ false
    → length a.buf + 2 * length xs ≤ a.max_buffer
    → feed a (escape_dle xs) ≡ ok (holding a (a.buf ++ escape_dle xs) false, [])
feed-escape [] a n p room = done (holding_self a p)
  where
    done :
        a ≡ holding a (a.buf ++ []) false
        → feed a (escape_dle []) ≡ ok (holding a (a.buf ++ escape_dle []) false, [])
    done e = unfold feed escape_dle in ap (λ w. ok (w, [])) e
feed-escape (x ∷ xs) a n p room = elim (Bool-cases (x == sf)) [
  | inl s ↦
      rw ((==_iff x sf).0 s, escape-cons_sf xs)
        (feed_two a (escape_dle xs) dle sf (feed_byte-dle a p (omega arith))
            (feed_byte-escaped (holding a (a.buf ++ dle ∷ []) true) sf refl
              (omega (arith, length-append {0} a.buf (dle ∷ []))))
            (feed-escape xs (holding a ((a.buf ++ dle ∷ []) ++ sf ∷ []) false) n.1 refl (
              omega (
                arith,
                length-append {0} a.buf (dle ∷ []),
                length-append {0} (a.buf ++ dle ∷ []) (sf ∷ []),
              )))
          ∙ regroup a (a.buf ++ dle ∷ []) (sf ∷ []) (escape_dle xs)
          ∙ regroup a a.buf (dle ∷ []) (sf ∷ escape_dle xs))
  | inr s ↦ rw (escape-cons x xs s) (
      feed-cons a x (escape_dle xs) (feed_byte-plain a x p n.0 s (omega arith)) (
        feed-escape xs (holding a (a.buf ++ x ∷ []) false) n.1 refl
          (omega (arith, length-append {0} a.buf (x ∷ []))))
      ∙ regroup a a.buf (x ∷ []) (escape_dle xs))
]

-- A frame that the parser accepts, fed to an idle assembler.
feed-frame :
    (a : Assembler) (body : List ℕ) (f : DartLineFrame)
    → feed a body ≡ ok (holding a body false, [])
    → a.buf ≡ []
    → a.after_dle ≡ false
    → 2 ≤ length body
    → parse_frame none default_crc_candidate (body ++ sf ∷ []) ≡ ok (frame f)
    → feed a (body ++ sf ∷ [])
      ≡ ok (
        a,
        record { kind = assembled; raw = body ++ sf ∷ []; parsed = some f; error = none } ∷ [],
      )
feed-frame a body f p idle flag long q =
    feed-append body (sf ∷ []) a p (feed-cons (holding a body false) sf [] closed finish)
  where
    event : AssemblerEvent
    event = record { kind = assembled; raw = body ++ sf ∷ []; parsed = some f; error = none }

    closed : feed_byte (holding a body false) sf ≡ ok (a, event ∷ [])
    closed =
        unfold feed_byte close_frame candidate_event in
        ground (arith, idle, flag, q, length-append {0} body (sf ∷ []))

    finish : feed a [] ≡ ok (a, [])
    finish = unfold feed in refl

-- An assembler between frames, with room for the largest frame.
pub record IsIdle (a : Assembler) : Type 0 where
  pub empty : a.buf ≡ []
  pub flag : a.after_dle ≡ false
  pub room : default_max_buffer ≤ a.max_buffer

pub store_all :
    (a : Assembler) (xs : List ℕ)
    → IsIdle a
    → NoDle xs
    → length xs ≤ max_buffer_size
    → feed a (escape_dle xs) ≡ ok (holding a (escape_dle xs) false, [])
store_all a xs idle n fits =
    feed-escape xs a n idle.flag (ground (arith, idle.empty, idle.room))
    ∙ ap (λ b. ok (holding a (b ++ escape_dle xs) false, [])) idle.empty

module _ (address sequence : ℕ) (payload wire : List ℕ) where
  -- A built data frame whose buffer holds no DLE is assembled: an idle assembler that is fed the wire
  -- image reports one event, the frame as it was sent, and is idle again as before.
  pub feed-build_data :
      (a : Assembler)
      → IsIdle a
      → build_data_frame none default_crc_candidate address sequence payload ≡ ok wire
      → NoDle (sent none default_crc_candidate address sequence payload)
      → feed a wire
        ≡ ok (
          a,
          record {
            kind = assembled;
            raw = wire;
            parsed = some (received none default_crc_candidate address sequence payload wire);
            error = none;
          }
              ∷ [],
        )
  feed-build_data a idle e n =
      let (_, fits, image, _) =
        build_data_inv none default_crc_candidate address sequence payload wire e in
      rw image (
        feed-frame a (escape_dle buffer)
          (received none default_crc_candidate address sequence payload
            (escape_dle buffer ++ sf ∷ []))
          (store_all a buffer idle n fits) idle.empty idle.flag
          (omega (arith, length-le-escape buffer))
          (rw image at
            (parse-build_data none default_crc_candidate address sequence payload wire e)))
    where
      buffer : List ℕ
      buffer = sent none default_crc_candidate address sequence payload
