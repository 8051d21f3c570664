-- ===== src/Persistence/Audit/Growth.antt =====
-- A log that is only appended to.
use intelipump.Common.{
  ℕ, suc, ◌≤◌, ◌<◌, ◌≡◌, refl, ap, ◌∙◌, true, false, some, List, [], ◌∷◌, ◌++◌, arith, leb, All,
  ◌+◌, sym, Bool, length, All-append,
}
use intelipump.Persistence.Audit.{
  AuditRecord, insert, list_all, newest, latest_hash, AuditFields, valid, append, verify_from,
  verify_chain_report,
}
use intelipump.Persistence.Audit.Chain.{head_of, IsLinked}

abbrev time_of : {H : Type 0} → AuditRecord H → ℕ
time_of r = r.fields.created_at

-- The times rise, from `t` on.
abbrev Rising : {H : Type 0} → ℕ → List (AuditRecord H) → Type 0
Rising t [] = Unit {0}
Rising t (r ∷ rs) = (t ≤ time_of r) × Rising (suc (time_of r)) rs

module _ {H : Type 0} where
  newest-Rising :
      (t : ℕ) (r : AuditRecord H) (rs : List (AuditRecord H))
      → Rising t (r ∷ rs)
      → (x : AuditRecord H) × (newest (r ∷ rs) ≡ some x)
        × (t ≤ time_of x)
        × (x.record_hash ≡ head_of r.record_hash rs)
  newest-Rising t r [] h = (r, refl, h.0, refl)
  newest-Rising t r (s ∷ rs) h =
      let (x, e, late, head) = newest-Rising (suc (time_of r)) s rs h.1 in
      let after : leb (time_of x) (time_of r) ≡ false = ground (arith, late) in
      (x, rw (e, after) refl, ground (arith, late, h.0), head)

  latest-Rising :
      (genesis : H) (t : ℕ) (rs : List (AuditRecord H))
      → Rising t rs
      → latest_hash genesis rs ≡ head_of genesis rs
  unfolding latest_hash
  latest-Rising genesis t [] h = refl
  latest-Rising genesis t (r ∷ rs) h =
      let (x, e, _, head) = newest-Rising t r rs h in rw (latest_hash, e) head

  insert_first :
      (r : AuditRecord H) (rs : List (AuditRecord H))
      → Rising (suc (time_of r)) rs
      → insert r rs ≡ r ∷ rs
  insert_first r [] h = refl
  insert_first r (s ∷ rs) h =
      let before : leb (time_of r) (time_of s) ≡ true = ground (arith, h.0) in rw before refl

  list-Rising : (t : ℕ) (rs : List (AuditRecord H)) → Rising t rs → list_all rs ≡ rs
  unfolding list_all
  list-Rising t [] h = refl
  list-Rising t (r ∷ rs) h =
      ap (insert r) (list-Rising (suc (time_of r)) rs h.1) ∙ insert_first r rs h.1

  abbrev Before : ℕ → List (AuditRecord H) → Type 0
  Before t rs = All (λ r. time_of r < t) rs

  Rising-append :
      (t : ℕ) (rs : List (AuditRecord H)) (x : AuditRecord H)
      → Rising t rs
      → t ≤ time_of x
      → Before (time_of x) rs
      → Rising t (rs ++ x ∷ [])
  Rising-append t [] x h late b = (late, tt)
  Rising-append t (r ∷ rs) x h late b =
      (h.0, Rising-append (suc (time_of r)) rs x h.1 (ground (arith, b.0)) b.1)

  head-append :
      (e : H) (rs : List (AuditRecord H)) (x : AuditRecord H)
      → head_of e (rs ++ x ∷ []) ≡ x.record_hash
  head-append e [] x = refl
  head-append e (r ∷ rs) x = head-append r.record_hash rs x

-- The times of the entries rise, from `t` on.
abbrev pub RisingFields : ℕ → List AuditFields → Type 0
RisingFields t [] = Unit {0}
RisingFields t (f ∷ fs) = (t ≤ f.created_at) × RisingFields (suc f.created_at) fs

module _ {H : Type 0} (same : H → H → Bool) (hash : H → AuditFields → H) (genesis : H) where
  abbrev pub append_all : List AuditFields → List (AuditRecord H) → List (AuditRecord H)
  append_all [] rows = rows
  append_all (f ∷ fs) rows = append_all fs (append same hash genesis f rows)

widen : {H : Type 0} (t u : ℕ) (rs : List (AuditRecord H)) → t ≤ u → Before t rs → Before u rs
widen t u [] h b = tt
widen t u (r ∷ rs) h b = (omega arith, widen t u rs h b.1)

module _ {H : Type 0} (same : H → H → Bool) (hash : H → AuditFields → H) (genesis : H)
    (same_complete : (a : H) → same a a ≡ true) where
  IsLinked-append :
      (e : H) (rs : List (AuditRecord H)) (x : AuditRecord H)
      → IsLinked hash e rs
      → x.previous_hash ≡ head_of e rs
      → x.record_hash ≡ hash x.previous_hash x.fields
      → IsLinked hash e (rs ++ x ∷ [])
  IsLinked-append e [] x l p q = (p, q, tt)
  IsLinked-append e (r ∷ rs) x (a, b, l) p q = (a, b, IsLinked-append r.record_hash rs x l p q)

  pub linked_verifies :
      (e : H) (k : ℕ) (rs : List (AuditRecord H))
      → IsLinked hash e rs
      → verify_from same hash genesis e k rs ≡ valid (k + length rs)
  unfolding verify_from
  linked_verifies e k [] l = ap valid (omega arith)
  linked_verifies e k (r ∷ rs) (a, b, l) =
      let before : same r.previous_hash e ≡ true =
        ap (λ x. same r.previous_hash x) (sym a) ∙ same_complete r.previous_hash in
      let own : same (hash r.previous_hash r.fields) r.record_hash ≡ true =
        ap (λ x. same x r.record_hash) (sym b) ∙ same_complete r.record_hash in
      rw (verify_from, before, own)
        (linked_verifies r.record_hash (k + 1) rs l ∙ ap valid (omega arith))

  -- A log that grew by appends at rising times.
  abbrev IsGrown : ℕ → List (AuditRecord H) → Type 0
  IsGrown t rows = Rising 0 rows × Before t rows × IsLinked hash genesis rows

  append-IsGrown :
      (t : ℕ) (f : AuditFields) (rows : List (AuditRecord H))
      → t ≤ f.created_at
      → IsGrown t rows
      → IsGrown (suc f.created_at) (append same hash genesis f rows)
  unfolding append
  append-IsGrown t f rows late (rising, before, linked) =
      let x : AuditRecord H = record {
        fields = f;
        previous_hash = latest_hash genesis rows;
        record_hash = hash (latest_hash genesis rows) f;
      } in
      let earlier = widen t f.created_at rows late before in
      (
        Rising-append 0 rows x rising (omega arith) earlier,
        All-append (λ r. time_of r < suc f.created_at) rows (x ∷ [])
            (widen t (suc f.created_at) rows (omega arith) before) (omega arith, tt),
        IsLinked-append genesis rows x linked (latest-Rising genesis 0 rows rising) refl,
      )

  append_all-IsGrown :
      (t : ℕ) (fs : List AuditFields) (rows : List (AuditRecord H))
      → RisingFields t fs
      → IsGrown t rows
      → (u : ℕ) × IsGrown u (append_all same hash genesis fs rows)
  append_all-IsGrown t [] rows h g = (t, g)
  append_all-IsGrown t (f ∷ fs) rows h g =
      append_all-IsGrown (suc f.created_at) fs (append same hash genesis f rows) h.1
        (append-IsGrown t f rows h.0 g)

  -- A log that starts empty and is only appended to, at times that rise, verifies, whatever is written:
  -- the report counts all its records.
  pub appended_verifies :
      (fs : List AuditFields)
      → RisingFields 0 fs
      → verify_chain_report same hash genesis (append_all same hash genesis fs [])
        ≡ valid (length (append_all same hash genesis fs []))
  unfolding verify_chain_report
  appended_verifies fs h =
      let (u, (rising, _, linked)) = append_all-IsGrown 0 fs [] h (tt, tt, tt) in
      let listed = list-Rising 0 (append_all same hash genesis fs []) rising in
      ap (verify_from same hash genesis genesis 0) listed
      ∙ linked_verifies genesis 0 (append_all same hash genesis fs []) linked
      ∙ ap valid (omega arith)
