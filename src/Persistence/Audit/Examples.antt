-- ===== src/Persistence/Audit/Examples.antt =====
-- Logs of one and two entries, with the list of all that is hashed as the hash.
use intelipump.Persistence.Audit.Chain.{last_hash_fixes_log}
use intelipump.Persistence.Audit.Growth.{appended_verifies, append_all, linked_verifies}
use native.Mathlib.Decide.{ℕ_discrete}
use intelipump.Common.{
  ℕ, String, ◌≡◌, refl, Bool, true, false, ◌&&◌, none, List, [], ◌∷◌, arith, ◌==◌, decided, ap, inl,
  inr, str_eq, eq_iff, Bool-cases,
}
use intelipump.Persistence.Audit.{
  AuditFields, previous_hash_mismatch, valid, invalid, list_all, latest_hash, append, verify_from,
  verify_chain_report, AuditRecord,
}

abbrev entry_at : String → ℕ → AuditFields
entry_at id at = record {
  id = id;
  correlation_id = none;
  actor = "cloud";
  source = "mqtt_command";
  action = "CLOUD_COMMAND:STOP";
  station_id = "station-1";
  pump_id = none;
  previous_state = none;
  resulting_state = none;
  result = "EVALUATED_ONLY";
  details = none;
  created_at = at;
}

abbrev all_equal : List ℕ → List ℕ → Bool
all_equal [] [] = true
all_equal (x ∷ xs) (y ∷ ys) = x == y && all_equal xs ys
all_equal _ _ = false

equal_self : (a : List ℕ) → all_equal a a ≡ true
equal_self [] = refl
equal_self (x ∷ xs) = ground (arith, equal_self xs)

abbrev times : List ℕ → AuditFields → List ℕ
times before f = f.created_at ∷ before

appended_verifies_example :
    verify_chain_report all_equal times []
      (append_all all_equal times [] (entry_at "a" 1 ∷ entry_at "b" 2 ∷ []) [])
    ≡ valid 2
unfolding append latest_hash
appended_verifies_example =
    appended_verifies all_equal times [] equal_self (entry_at "a" 1 ∷ entry_at "b" 2 ∷ [])
      (omega arith, (omega arith, tt))

-- An entry whose clock was set back breaks the chain.
clock_set_back :
    verify_chain_report all_equal times []
      (append_all all_equal times [] (entry_at "a" 2 ∷ entry_at "b" 1 ∷ []) [])
    ≡ invalid 0 "b" previous_hash_mismatch
unfolding append latest_hash verify_chain_report verify_from list_all
clock_set_back = refl

-- A hash without collisions: it keeps what it was made of.
data Kept : Type 0 where
  start : Kept
  after : Kept → AuditFields → Kept

String-discrete : Discrete String
String-discrete a b = elim (Bool-cases (str_eq a b)) [
  | inl e ↦ yes ((eq_iff a b).0 e)
  | inr e ↦ no (λ same. absurd (ground (arith, e, (eq_iff a b).1 same)))
]

AuditFields-discrete : Discrete AuditFields
AuditFields-discrete = hlevel (String-discrete, ℕ_discrete)

abbrev same_kept : Kept → Kept → Bool
same_kept start start = true
same_kept (after p f) (after q g) = same_kept p q && decided (AuditFields-discrete f g)
same_kept _ _ = false

decided_sound : {P : Type 0} (d : Dec P) → decided d ≡ true → P
decided_sound (yes p) h = p
decided_sound (no n) h = absurd (ground (arith, h))

decided_complete : {P : Type 0} (d : Dec P) → P → decided d ≡ true
decided_complete (yes p) h = refl
decided_complete (no n) h = absurd (n h)

same_kept_complete : (a : Kept) → same_kept a a ≡ true
same_kept_complete start = refl
same_kept_complete (after p f) =
    ground (arith, same_kept_complete p, decided_complete (AuditFields-discrete f f) refl)

same_kept_sound : (a b : Kept) → same_kept a b ≡ true → a ≡ b
same_kept_sound start start h = refl
same_kept_sound start (after q g) h = absurd (ground (arith, h))
same_kept_sound (after p f) start h = absurd (ground (arith, h))
same_kept_sound (after p f) (after q g) h =
    let before = same_kept_sound p q (ground (arith, h)) in
    let fields = decided_sound (AuditFields-discrete f g) (ground (arith, h)) in
    λ i. after (before i) (fields i)

abbrev before_of : Kept → Kept
before_of start = start
before_of (after p f) = p

abbrev fields_of : AuditFields → Kept → AuditFields
fields_of d start = d
fields_of d (after p f) = f

no_collision : (p p' : Kept) (f f' : AuditFields) → after p f ≡ after p' f' → (p ≡ p') × (f ≡ f')
no_collision p p' f f' h = (ap before_of h, ap (fields_of f) h)

abbrev kept_log : List (AuditRecord Kept)
kept_log =
    record {
      fields = entry_at "a" 1;
      previous_hash = start;
      record_hash = after start (entry_at "a" 1);
    }
    ∷ []

kept_log_valid : verify_chain_report same_kept after start kept_log ≡ valid 1
unfolding verify_chain_report list_all
kept_log_valid =
    linked_verifies same_kept after start same_kept_complete start 0 kept_log (refl, refl, tt)

last_hash_fixes_log_example : list_all kept_log ≡ list_all kept_log
last_hash_fixes_log_example =
    last_hash_fixes_log same_kept after start same_kept_sound no_collision 1 kept_log kept_log
      kept_log_valid kept_log_valid refl
