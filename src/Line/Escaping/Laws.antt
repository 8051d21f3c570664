-- ===== src/Line/Escaping/Laws.antt =====
-- Escaping and unescaping are inverse, but for a buffer that ends in DLE.
use intelipump.Common.{
  ℕ, ◌≡◌, refl, inl, inr, Bool, false, List, [], ◌∷◌, arith, ◌==◌, if◌then◌else◌, ==_iff,
  Bool-cases, Result, ok, err, sym, ap, ◌∙◌,
}
use intelipump.Line.Constants.{dle, sf, LineError, truncated_escape, unescaped_sf}
use intelipump.Line.Escaping.{prepend, escape_dle, unescape_dle}

abbrev pub ends_in_dle : List ℕ → Bool
ends_in_dle [] = false
ends_in_dle (byte ∷ []) = byte == dle
ends_in_dle (byte ∷ nxt ∷ rest) = ends_in_dle (nxt ∷ rest)

-- One turn of each loop.
pub escape-cons_sf : (rest : List ℕ) → escape_dle (sf ∷ rest) ≡ dle ∷ sf ∷ escape_dle rest
unfolding escape_dle
escape-cons_sf rest = refl

pub escape-cons :
    (x : ℕ) (rest : List ℕ) → (x == sf) ≡ false → escape_dle (x ∷ rest) ≡ x ∷ escape_dle rest
unfolding escape_dle
escape-cons x rest h = rw h

unescape_keep :
    (x : ℕ) (rest : List ℕ)
    → (x == dle) ≡ false
    → (x == sf) ≡ false
    → unescape_dle (x ∷ rest) ≡ prepend x (unescape_dle rest)
unfolding unescape_dle
unescape_keep x [] h k = rw (h, k)
unescape_keep x (y ∷ rest) h k = rw (h, k)

unescape_pair : (rest : List ℕ) → unescape_dle (dle ∷ sf ∷ rest) ≡ prepend sf (unescape_dle rest)
unfolding unescape_dle
unescape_pair rest = refl

unescape_lone :
    (y : ℕ) (rest : List ℕ)
    → (y == sf) ≡ false
    → unescape_dle (dle ∷ y ∷ rest) ≡ prepend dle (unescape_dle (y ∷ rest))
unfolding unescape_dle
unescape_lone y rest h = rw h

unescape_bare : (rest : List ℕ) → unescape_dle (sf ∷ rest) ≡ err unescaped_sf
unfolding unescape_dle
unescape_bare [] = refl
unescape_bare (y ∷ rest) = refl

abbrev decoded : List ℕ → Result LineError (List ℕ)
decoded buffer = if ends_in_dle buffer then err truncated_escape else ok buffer

prepend-decoded :
    (x y : ℕ) (rest : List ℕ) → prepend x (decoded (y ∷ rest)) ≡ decoded (x ∷ y ∷ rest)
prepend-decoded x y rest = ground arith

-- A DLE before an escaped buffer is read as data.
unescape_dle_first :
    (y : ℕ) (rest : List ℕ)
    → unescape_dle (dle ∷ escape_dle (y ∷ rest))
      ≡ prepend dle (unescape_dle (escape_dle (y ∷ rest)))
unescape_dle_first y rest = elim (Bool-cases (y == sf)) [
  | inl h ↦
      let e : y ≡ sf = (==_iff y sf).0 h in rw (e, escape-cons_sf rest) (unescape_lone dle _ refl)
  | inr h ↦ rw (escape-cons y rest h) (unescape_lone y _ h)
]

-- Every buffer comes back from its escaped form, unless its last byte is DLE: then, and only then,
-- unescaping reports a truncated escape.
pub unescape-escape :
    (buffer : List ℕ)
    → unescape_dle (escape_dle buffer)
      ≡ (if ends_in_dle buffer then err truncated_escape else ok buffer)
unescape-escape [] = unfold escape_dle unescape_dle in refl
unescape-escape (x ∷ []) = unfold escape_dle unescape_dle in ground arith
unescape-escape (x ∷ y ∷ rest) = split (unescape-escape (y ∷ rest))
  where
    tail : List ℕ
    tail = y ∷ rest

    split :
        unescape_dle (escape_dle tail) ≡ decoded tail
        → unescape_dle (escape_dle (x ∷ tail)) ≡ decoded (x ∷ tail)
    split ih = elim (Bool-cases (x == sf)) [
      | inl h ↦
          let e : x ≡ sf = (==_iff x sf).0 h in
          rw (e, escape-cons_sf tail, unescape_pair, ih) (prepend-decoded sf y rest)
      | inr h ↦ rw (escape-cons x tail h) (elim (Bool-cases (x == dle)) [
        | inl d ↦
            let e : x ≡ dle = (==_iff x dle).0 d in
            rw (e, unescape_dle_first y rest, ih) (prepend-decoded dle y rest)
        | inr d ↦ rw (unescape_keep x (escape_dle tail) d h, ih) (prepend-decoded x y rest)
      ])
    ]

prepend-ok :
    (x : ℕ) (r : Result LineError (List ℕ)) (out : List ℕ)
    → prepend x r ≡ ok out
    → (rest : List ℕ) × (r ≡ ok rest) × (out ≡ x ∷ rest)
prepend-ok x (ok rest) out e = (rest, refl, ground arith)
prepend-ok x (err _) out e = cc

module _ (r : Result LineError (List ℕ)) (wire buffer : List ℕ) where
  module _ (ih : (b : List ℕ) → r ≡ ok b → escape_dle b ≡ wire) where
    kept : (x : ℕ) → (x == sf) ≡ false → prepend x r ≡ ok buffer → escape_dle buffer ≡ x ∷ wire
    kept x h e =
        let (b, p, q) = prepend-ok x r buffer e in rw (q, escape-cons x b h) (ap (◌∷◌ x) (ih b p))

    paired : prepend sf r ≡ ok buffer → escape_dle buffer ≡ dle ∷ sf ∷ wire
    paired e =
        let (b, p, q) = prepend-ok sf r buffer e in
        rw (q, escape-cons_sf b) (ap (λ w. dle ∷ sf ∷ w) (ih b p))

-- What unescaping accepts is the escaped form of what it returns.
pub escape-unescape :
    (wire buffer : List ℕ) → unescape_dle wire ≡ ok buffer → escape_dle buffer ≡ wire
escape-unescape [] buffer e = unfold escape_dle unescape_dle in ground arith
escape-unescape (x ∷ []) buffer e = unfold escape_dle unescape_dle in ground arith
escape-unescape (x ∷ y ∷ rest) buffer e = elim (Bool-cases (x == dle)) [
  | inl d ↦ elim (Bool-cases (y == sf)) [
    | inl s ↦
        let p : x ≡ dle = (==_iff x dle).0 d in
        let q : y ≡ sf = (==_iff y sf).0 s in
        rw (p, q)
          (paired (unescape_dle rest) rest buffer (escape-unescape rest)
            (sym (unescape_pair rest) ∙ (rw (p, q) at e)))
    | inr s ↦
        let p : x ≡ dle = (==_iff x dle).0 d in
        rw p (
          kept (unescape_dle (y ∷ rest)) (y ∷ rest) buffer (escape-unescape (y ∷ rest)) dle refl
            (sym (unescape_lone y rest s) ∙ (rw p at e)))
  ]
  | inr d ↦ elim (Bool-cases (x == sf)) [
    | inl s ↦ let p : x ≡ sf = (==_iff x sf).0 s in cc (unescape_bare (y ∷ rest), p)
    | inr s ↦
        kept (unescape_dle (y ∷ rest)) (y ∷ rest) buffer (escape-unescape (y ∷ rest)) x s
          (sym (unescape_keep x (y ∷ rest) d s) ∙ e)
  ]
]
