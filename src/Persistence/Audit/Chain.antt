-- ===== src/Persistence/Audit/Chain.antt =====
-- The chain of the audit log.
use intelipump.Common.{
  ℕ, ◌+◌, ◌≡◌, refl, sym, ◌∙◌, inl, inr, Bool, true, List, [], ◌∷◌, arith, Bool-cases, length,
}
use intelipump.Persistence.Audit.{
  AuditFields, AuditRecord, valid, verify_from, list_all, verify_chain_report,
}

module _ {H : Type 0} where
  -- The hash of the last record, or the one before them all.
  abbrev pub head_of : H → List (AuditRecord H) → H
  head_of expected [] = expected
  head_of expected (r ∷ rs) = head_of r.record_hash rs

module _ {H : Type 0} (hash : H → AuditFields → H) where
  -- Each record carries the hash before it and its own.
  abbrev pub IsLinked : H → List (AuditRecord H) → Type 0
  IsLinked expected [] = Unit {0}
  IsLinked expected (r ∷ rs) =
      (r.previous_hash ≡ expected)
      × (r.record_hash ≡ hash r.previous_hash r.fields)
      × IsLinked r.record_hash rs

module _ {H : Type 0} (same : H → H → Bool) (hash : H → AuditFields → H) (genesis : H)
    (same_sound : (a b : H) → same a b ≡ true → a ≡ b) where
  verify-IsLinked :
      (expected : H) (k n : ℕ) (rs : List (AuditRecord H))
      → verify_from same hash genesis expected k rs ≡ valid n
      → IsLinked hash expected rs × (n ≡ k + length rs)
  unfolding verify_from
  verify-IsLinked expected k n [] h = (tt, ground (arith, h))
  verify-IsLinked expected k n (r ∷ rs) h = elim (Bool-cases (same r.previous_hash expected)) [
    | inr a ↦ absurd (ground (arith, rw a at h))
    | inl a ↦ elim (Bool-cases (same (hash r.previous_hash r.fields) r.record_hash)) [
      | inr b ↦ absurd (ground (arith, rw (a, b) at h))
      | inl b ↦
          let (linked, sized) = verify-IsLinked r.record_hash (k + 1) n rs (rw (a, b) at h) in
          let own = sym (same_sound (hash r.previous_hash r.fields) r.record_hash b) in
          ((same_sound r.previous_hash expected a, own, linked), sized ∙ omega arith)
    ]
  ]

  module _
      (collision_free : (p p' : H) (f f' : AuditFields)
        → hash p f ≡ hash p' f'
        → (p ≡ p') × (f ≡ f')) where
    linked_same :
        (e e' : H) (rs rs' : List (AuditRecord H))
        → IsLinked hash e rs
        → IsLinked hash e' rs'
        → length rs ≡ length rs'
        → head_of e rs ≡ head_of e' rs'
        → (e ≡ e') × (rs ≡ rs')
    linked_same e e' [] [] l l' n h = (h, refl)
    linked_same e e' [] (r' ∷ rs') l l' n h = absurd (omega arith)
    linked_same e e' (r ∷ rs) [] l l' n h = absurd (omega arith)
    linked_same e e' (r ∷ rs) (r' ∷ rs') (p, q, l) (p', q', l') n h =
        let (hashes, rest) = linked_same r.record_hash r'.record_hash rs rs' l l' (omega arith) h in
        let (before, fields) =
          collision_free r.previous_hash r'.previous_hash r.fields r'.fields
            (sym q ∙ hashes ∙ q') in
        (
          sym p ∙ before ∙ p',
          λ i.
              record { fields = fields i; previous_hash = before i; record_hash = hashes i }
              ∷ rest i,
        )

    -- The log cannot be changed behind its last hash: for a hash without collisions, two logs that both
    -- verify, have the same number of records and end in the same hash have the same records, field by
    -- field and in the same order.
    pub last_hash_fixes_log :
        (n : ℕ) (rows rows' : List (AuditRecord H))
        → verify_chain_report same hash genesis rows ≡ valid n
        → verify_chain_report same hash genesis rows' ≡ valid n
        → head_of genesis (list_all rows) ≡ head_of genesis (list_all rows')
        → list_all rows ≡ list_all rows'
    unfolding verify_chain_report
    last_hash_fixes_log n rows rows' v v' h =
        let (l, n_rows) = verify-IsLinked genesis 0 n (list_all rows) v in
        let (l', n_rows') = verify-IsLinked genesis 0 n (list_all rows') v' in
        (linked_same genesis genesis (list_all rows) (list_all rows') l l' (omega arith) h).1
