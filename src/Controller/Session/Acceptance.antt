-- ===== src/Controller/Session/Acceptance.antt =====
-- Which responses reach the machine, and which are acknowledged.
use intelipump.Line.Frame.Reading.{build_ack_total}
use intelipump.Simulator.Config.{next_sequence, next_sequence-fits}
use intelipump.Controller.Session.Types.{healthy}
use intelipump.Controller.Session.Cases.{
  on_data_cases, handle_cases, data_path, next_path, duplicate_path,
}
use intelipump.Controller.Session.Apply.{tell, set_communication}
use intelipump.Controller.Session.Parts.{
  started, app, link, link-set_communication, link-start, applied, link-transactions, Link,
  link-transactions, applied,
}
use intelipump.Controller.Session.Types.{PumpSession}
use intelipump.Controller.Session.{handle_response_frame, on_nak, on_eot, receive, count_eot}
use intelipump.Line.Frame.{build_ack, DartLineFrame}
use intelipump.Controller.Session.Data.{
  on_unexpected, on_bad_crc, repeats, crc_failed, on_duplicate, Reply, start_if_disconnected,
  acknowledge, count_data, hear_data, on_accepted,
}
use intelipump.Common.{
  ℕ, ◌≡◌, refl, ◌⊎◌, inl, inr, Bool, true, false, not, ◌&&◌, arith, ◌==◌, ok, Result-cases, ◌<◌, ap,
  ◌∙◌, some, List, sym,
}
use intelipump.Line.Control.{eot, ControlType, is_data, data_block}

abbrev is_eot : ControlType → Bool
is_eot eot = true
is_eot _ = false

-- The pump's data frame, sound, and the next of its sequence.
abbrev pub accepts : DartLineFrame → PumpSession → Bool
accepts fr s =
    fr.address == s.state.address
    && is_data fr.control_type
    && not (crc_failed fr)
    && not (repeats fr s)
    && fr.sequence == s.state.expected_rx_sequence

-- Neither the sequence nor what was applied has moved.
abbrev pub Stands : PumpSession → PumpSession → Type 0
Stands before after = (link after ≡ link before) × (app after ≡ app before)

-- The machine heard at most that the pump is there.
abbrev pub Woken : PumpSession → PumpSession → Type 0
Woken before after =
    (link after ≡ link before)
    × (app after ≡ (started before.machine, before.applied_completion_keys))

duplicate-Stands : (fr : DartLineFrame) (s : PumpSession) → Stands s (on_duplicate fr s).0
unfolding on_duplicate tell
duplicate-Stands fr s = elim (Result-cases (build_ack s.state.address fr.sequence)) [
  | inl (wire, e) ↦ rw (on_duplicate, e) (refl, refl)
  | inr (x, e) ↦ rw (on_duplicate, e) (refl, refl)
]

wakes : (s : PumpSession) → Woken s (start_if_disconnected (set_communication healthy s))
unfolding started
wakes s =
    let (l, a, _, _) = link-set_communication healthy s in
    let (l', a', _) = link-start (set_communication healthy s) in
    (l' ∙ l, a' ∙ ap (λ p. (started p.0, p.1)) a)

eot-Woken : (s : PumpSession) → Woken s (on_eot s)
unfolding on_eot tell
eot-Woken s = wakes (count_eot s)

data-Woken : (fr : DartLineFrame) (s : PumpSession) → Woken s (hear_data fr s)
unfolding hear_data
data-Woken fr s = wakes (count_data fr s)

-- A response that is not the pump's next data frame, sound and addressed as the session is, changes
-- neither the sequence numbers nor the completions that were applied; and it leaves the machine alone,
-- unless it is an EOT, which tells the machine at most that the pump is there.
pub unaccepted-Stands :
    (now : ℕ) (fr : DartLineFrame) (s : PumpSession)
    → accepts fr s ≡ false
    → Stands s (handle_response_frame now fr s).0
      ⊎ ((fr.control_type ≡ eot) × Woken s (handle_response_frame now fr s).0)
unfolding receive tell on_nak on_bad_crc on_unexpected
unaccepted-Stands now fr s h =
    handle_cases (λ r. Stands s r.0 ⊎ ((fr.control_type ≡ eot) × Woken s r.0)) now fr s
      (λ e. inl (refl, refl)) (λ e. inr (e, eot-Woken (receive now fr s))) (λ e. inl (refl, refl))
      (λ a e.
        on_data_cases (λ r. Stands s r.0 ⊎ ((fr.control_type ≡ eot) × Woken s r.0)) fr
          (receive now fr s) (λ bad. inl (refl, refl))
          (λ fine again. inl (duplicate-Stands fr (receive now fr s))) (inl (refl, refl))
          (λ fine new next. absurd (ground (arith, h, a, e, fine, new, next))))

is_data_iff : (t : ControlType) → is_data t ≡ true → t ≡ data_block
is_data_iff t h = ground (arith, h)

accepted_path :
    (now : ℕ) (fr : DartLineFrame) (s : PumpSession)
    → accepts fr s ≡ true
    → handle_response_frame now fr s ≡ on_accepted fr (receive now fr s)
unfolding receive tell
accepted_path now fr s h =
    data_path now fr s (ground (arith, h)) (is_data_iff fr.control_type (ground (arith, h)))
    ∙ next_path fr (receive now fr s) (ground (arith, h)) (ground (arith, h)) (ground (arith, h))

-- The pump's data frame, sound, with the number that is expected, in the range of numbers.
module _ (now : ℕ) (fr : DartLineFrame) (s : PumpSession) where
  abbrev pub Answers : PumpSession × Reply → Type 0
  Answers r =
      (n : ℕ) × (next_sequence fr.sequence s.sequence_policy ≡ ok n)
      × (wire : List ℕ) × (build_ack s.state.address fr.sequence ≡ ok wire)
      × (r.1 ≡ ok (some wire))
      × (link r.0 ≡ record (link s) { expected = n; last_accepted = some fr.sequence })

  accepted-Answers : fr.sequence < 16 → s.state.address < 256 → Answers (on_accepted fr s)
  unfolding on_accepted acknowledge tell
  accepted-Answers small byte =
      let (txs, e) = applied fr (hear_data fr s) in
      let (l, _) = link-transactions txs (hear_data fr s) in
      let (l', _) = data-Woken fr s in
      let same = l ∙ l' in
      let (n, f, _, _) = next_sequence-fits fr.sequence s.sequence_policy small in
      let (wire, g) = build_ack_total s.state.address fr.sequence byte small in
      let policy = ap (λ k. k.policy) same in
      let address = ap (λ k. k.address) same in
      let moved =
        ap {A = Link} (λ k. record k { expected = n; last_accepted = some fr.sequence }) same in
      (
        n,
        f,
        wire,
        g,
        rw (on_accepted, e, acknowledge, policy, f, address, g) refl,
        rw (on_accepted, e, acknowledge, policy, f, address, g) moved,
      )

-- A duplicate is acknowledged, and nothing else.
duplicate-acks :
    (fr : DartLineFrame) (s : PumpSession) (wire : List ℕ)
    → build_ack s.state.address fr.sequence ≡ ok wire
    → (on_duplicate fr s).1 ≡ ok (some wire)
unfolding on_duplicate
duplicate-acks fr s wire e = rw (on_duplicate, e) refl

-- The pump's next data frame, sound and with a sequence number of four bits, is always acknowledged with
-- its own number, whatever its payload holds: the session takes the number as the last accepted and
-- expects the one that follows it by the policy.
pub next_is_answered :
    (now : ℕ) (fr : DartLineFrame) (s : PumpSession)
    → accepts fr s ≡ true
    → fr.sequence < 16
    → s.state.address < 256
    → Answers now fr s (handle_response_frame now fr s)
unfolding receive tell
next_is_answered now fr s h small byte =
    rw (accepted_path now fr s h) (accepted-Answers now fr (receive now fr s) small byte)

repeat_answered :
    (now : ℕ) (fr : DartLineFrame) (s : PumpSession) (wire : List ℕ)
    → fr.address ≡ s.state.address
    → fr.control_type ≡ data_block
    → crc_failed fr ≡ false
    → repeats fr s ≡ true
    → build_ack s.state.address fr.sequence ≡ ok wire
    → ((handle_response_frame now fr s).1 ≡ ok (some wire))
      × Stands s (handle_response_frame now fr s).0
unfolding receive tell
repeat_answered now fr s wire address type sound again e =
    rw (duplicate_path now fr s address type sound again)
      (duplicate-acks fr (receive now fr s) wire e, duplicate-Stands fr (receive now fr s))

-- A pump that did not hear the ACK and repeats its frame is sent the same ACK again, and what the frame
-- says is not applied again: the second time nothing moves.
pub repeat_not_applied :
    (now later : ℕ) (fr again : DartLineFrame) (s : PumpSession)
    → accepts fr s ≡ true
    → fr.sequence < 16
    → s.state.address < 256
    → again.address ≡ fr.address
    → again.control_type ≡ data_block
    → crc_failed again ≡ false
    → again.sequence ≡ fr.sequence
    → ((handle_response_frame later again (handle_response_frame now fr s).0).1
        ≡ (handle_response_frame now fr s).1)
      × Stands
          (handle_response_frame now fr s).0
          (handle_response_frame later again (handle_response_frame now fr s).0).0
repeat_not_applied now later fr again s h small byte address type crc sequence =
    let (n, _, wire, built, sent, moved) = next_is_answered now fr s h small byte in
    let last : repeats again (handle_response_frame now fr s).0 ≡ true =
      ground (arith, ap (λ k. k.last_accepted) moved, sequence) in
    let here = ap (λ k. k.address) moved in
    let from : fr.address ≡ s.state.address = ground (arith, h) in
    let (acked, stands) =
      repeat_answered later again (handle_response_frame now fr s).0 wire
        (address ∙ from ∙ sym here) type crc last (rw (here, sequence) built) in
    (acked ∙ sym sent, stands)
