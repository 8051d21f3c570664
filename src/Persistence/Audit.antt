-- ===== src/Persistence/Audit.antt =====
-- persistence/repositories/audit.py: the audit log, whose records carry the hash of the one before. The
-- table is the list of its rows, in the order of their inserts. The hash, SHA-256 of the previous hash
-- and the canonical JSON of the fields, is a parameter, with the test for the equality of two hashes;
-- `genesis` is AUDIT_GENESIS_HASH. A time is a number, and `details` is its JSON text.
pub mod Chain
pub mod Growth
mod Examples
use intelipump.Common.{
  some, none, leb, [], ℕ, ◌+◌, String, Bool, not, Option, List, ◌∷◌, ◌++◌, if◌then◌else◌, Result,
  ok, err,
}

-- The payload that is hashed.
pub record AuditFields : Type 0 where
  pub id : String
  pub correlation_id : Option String
  pub actor : String
  pub source : String
  pub action : String
  pub station_id : String
  pub pump_id : Option String
  pub previous_state : Option String
  pub resulting_state : Option String
  pub result : String
  pub details : Option String
  pub created_at : ℕ

pub record AuditRecord (H : Type 0) : Type 0 where
  pub fields : AuditFields
  pub previous_hash : H
  pub record_hash : H

pub data ChainFault : Type 0 where
  previous_hash_mismatch record_hash_mismatch : ChainFault

-- The report: the number of records checked, and the first invalid record with its reason.
pub data ChainReport : Type 0 where
  valid : ℕ → ChainReport
  invalid : ℕ → String → ChainFault → ChainReport

module _ {H : Type 0} where
  -- ORDER BY created_at: rows of one time are in the order of the table.
  abbrev pub insert : AuditRecord H → List (AuditRecord H) → List (AuditRecord H)
  insert r [] = r ∷ []
  insert r (x ∷ xs) =
      let after = x ∷ insert r xs in
      if leb r.fields.created_at x.fields.created_at then r ∷ x ∷ xs else after

  unfoldable pub list_all : List (AuditRecord H) → List (AuditRecord H)
  list_all [] = []
  list_all (r ∷ rs) = insert r (list_all rs)

  -- The row of the greatest time, the first of them.
  abbrev pub newest : List (AuditRecord H) → Option (AuditRecord H)
  newest [] = none
  newest (r ∷ rs) = elim (newest rs) [
    | none ↦ some r
    | some x ↦ if leb x.fields.created_at r.fields.created_at then some r else some x
  ]

  unfoldable pub latest_hash : H → List (AuditRecord H) → H
  latest_hash genesis rows = elim (newest rows) [ none ↦ genesis | some r ↦ r.record_hash ]

module _ {H : Type 0} (same : H → H → Bool) (hash : H → AuditFields → H) (genesis : H) where
  unfoldable pub append : AuditFields → List (AuditRecord H) → List (AuditRecord H)
  unfolding latest_hash
  append fields rows =
      let previous = latest_hash genesis rows in
      rows
      ++ record { fields = fields; previous_hash = previous; record_hash = hash previous fields }
        ∷ []

  -- The loop of `verify_chain_report`, from the hash that the next record must carry.
  unfoldable pub verify_from : H → ℕ → List (AuditRecord H) → ChainReport
  verify_from expected checked [] = valid checked
  verify_from expected checked (r ∷ rs) =
      let rest = verify_from r.record_hash (checked + 1) rs in
      if not (same r.previous_hash expected)
      then invalid checked r.fields.id previous_hash_mismatch
      else if not (same (hash r.previous_hash r.fields) r.record_hash)
      then invalid checked r.fields.id record_hash_mismatch
      else rest

  unfoldable pub verify_chain_report : List (AuditRecord H) → ChainReport
  unfolding verify_from list_all
  verify_chain_report rows = verify_from genesis 0 (list_all rows)

  -- `verify_chain`; an `err` is the AuditChainError, with the record and the fault.
  verify_chain : List (AuditRecord H) → Result (String × ChainFault) (Unit {0})
  unfolding verify_chain_report
  verify_chain rows = elim (verify_chain_report rows) [
    | valid n ↦ ok tt
    | invalid n id fault ↦ err (id, fault)
  ]
