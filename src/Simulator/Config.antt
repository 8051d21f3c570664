-- ===== src/Simulator/Config.antt =====
-- simulator/config.py: the policies for the sequence number after 0xF, which the controller shares.
use intelipump.Common.{
  ℕ, ◌+◌, ◌<◌, ◌≡◌, ◌≢◌, not, leb, ◌==◌, if◌then◌else◌, Result, ok, err, inl, inr, arith,
  Bool-cases,
}
use intelipump.Line.Constants.{LineError, sequence_out_of_range}

pub data SequencePolicy : Type 0 where
  spec_f_to_1 observed_f_to_0 : SequencePolicy

pub next_sequence : ℕ → SequencePolicy → Result LineError ℕ
next_sequence sequence policy =
    if not (leb sequence 0x0F)
    then err sequence_out_of_range
    else if not (sequence == 0x0F)
    then ok (sequence + 1)
    else elim policy [ spec_f_to_1 ↦ ok 0x01 | observed_f_to_0 ↦ ok 0x00 ]

pub next_sequence-fits :
    (sequence : ℕ) (policy : SequencePolicy)
    → sequence < 16
    → (n : ℕ) × (next_sequence sequence policy ≡ ok n) × (n < 16) × (n ≢ sequence)
unfolding next_sequence
next_sequence-fits sequence policy h = elim (Bool-cases (sequence == 0x0F)) [
  | inl last ↦ wraps policy (ground (arith, last))
  | inr more ↦ (sequence + 1, ground (arith, h, more), ground (arith, h, more), λ e. omega arith)
]
  where
    wraps :
        (p : SequencePolicy)
        → sequence ≡ 15
        → (n : ℕ) × (next_sequence sequence p ≡ ok n) × (n < 16) × (n ≢ sequence)
    wraps spec_f_to_1 last = (1, ground (arith, last), omega arith, λ e. omega arith)
    wraps observed_f_to_0 last = (0, ground (arith, last), omega arith, λ e. omega arith)
