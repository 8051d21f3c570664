-- ===== src/Cloud/CommandIntake/Once.antt =====
-- A command's correlation id is good for one command.
use intelipump.Pump.State.{PumpCommand, is_non_idempotent}
use intelipump.Cloud.CommandIntake.Dispatch.{cd1_code, evaluated, dispatch, in_lab, Dispatched}
use intelipump.Cloud.CommandIntake.Evaluate.{
  validation_reasons, Evaluation, is_empty, evaluation_of, command_of, no_evaluation, flagged,
  checks,
}
use intelipump.Pump.Machine.{add_key, has_key}
use intelipump.Cloud.CommandIntake.Types.{
  CommandStore, CloudCommandIntake, CloudCommandInbound, IntakeReason, rejected_command, LoopView,
}
use intelipump.Common.{
  ℕ, String, ◌≡◌, refl, inl, inr, Bool, true, ◌||◌, List, [], ◌∷◌, arith, eq_iff, Bool-cases, false,
  Option, none, some, Option-cases, ap, ◌∙◌, ◌&&◌, is_some,
}
use intelipump.Cloud.CommandIntake.{
  any_reason, is_rejecting, is_rejected, result_of, Handled, handle_command,
}

has_key-add : (k : String) (keys : List String) → has_key k (add_key k keys) ≡ true
has_key-add k keys = elim (Bool-cases (has_key k keys)) [
  | inl e ↦ rw (e, e) refl
  | inr e ↦ rw e (ground (arith, eq_iff k k))
]

abbrev any_flag : List (Bool × IntakeReason) → Bool
any_flag [] = false
any_flag (f ∷ fs) = f.0 && is_rejecting f.1 || any_flag fs

any-flagged : (fs : List (Bool × IntakeReason)) → any_reason is_rejecting (flagged fs) ≡ any_flag fs
unfolding flagged
any-flagged [] = refl
any-flagged (f ∷ fs) = elim (Bool-cases f.0) [
  | inl e ↦ rw (e, any-flagged fs) refl
  | inr e ↦ rw (e, any-flagged fs) refl
]

not_empty : (rs : List IntakeReason) → any_reason is_rejecting rs ≡ true → is_empty rs ≡ false
not_empty [] h = absurd (ground (arith, h))
not_empty (r ∷ rs) h = refl

-- The command is refused, and nothing but its record comes of it.
abbrev pub IsRefused : Option LoopView → Handled → Type 0
IsRefused loop h =
    (h.result.execution_status ≡ rejected_command)
    × (h.result.accepted ≡ false)
    × (h.result.executed ≡ false)
    × (h.loop ≡ loop)

module _ (now : ℕ) (cmd : CloudCommandInbound) (intake : CloudCommandIntake) (store : CommandStore)
    (again : has_key cmd.correlation_id intake.seen ≡ true) where
  duplicate_found : any_reason is_rejecting (validation_reasons now cmd intake store) ≡ true
  unfolding validation_reasons checks
  duplicate_found = any-flagged (checks now cmd intake store) ∙ ground (arith, again)

  dispatch_refused :
      (item_id : String) (loop : Option LoopView) (command : Option PumpCommand) (e : Evaluation)
      → is_empty e.reasons ≡ false
      → dispatch now item_id cmd intake loop command e ≡ evaluated loop e.reasons
  unfolding dispatch
  dispatch_refused item_id none command e h = refl
  dispatch_refused item_id (some l) none e h = refl
  dispatch_refused item_id (some l) (some c) e h = elim (Option-cases (cd1_code c)) [
    | inl n ↦ rw (dispatch, n) refl
    | inr (code, s) ↦
        let refused : (in_lab cmd intake (some l)
              && is_empty e.reasons
              && (is_non_idempotent c || is_some e.context))
            ≡ false =
          ground (arith, h) in
        rw (dispatch, s, refused) refl
  ]

  refused_result :
      (e : Evaluation) (d : Dispatched)
      → any_reason is_rejecting d.reasons ≡ true
      → ((result_of cmd intake e d).execution_status ≡ rejected_command)
        × ((result_of cmd intake e d).accepted ≡ false)
        × ((result_of cmd intake e d).executed ≡ d.executed)
  unfolding result_of is_rejected
  refused_result e d h = rw (result_of, is_rejected, h) (refl, refl, refl)

  not_evaluated :
      (reasons : List IntakeReason) (loop : Option LoopView)
      → is_empty reasons ≡ false
      → evaluation_of reasons cmd loop store ≡ no_evaluation reasons
  unfolding evaluation_of
  not_evaluated reasons loop h = rw (evaluation_of, h) refl

  seen-IsRefused :
      (item_id : String) (is_connected : Bool) (loop : Option LoopView)
      → IsRefused loop (handle_command now item_id is_connected cmd intake loop store)
  unfolding handle_command
  seen-IsRefused item_id is_connected loop =
      let found = validation_reasons now cmd intake store in
      let some_found = not_empty found duplicate_found in
      let e = evaluation_of found cmd loop store in
      let none_made = not_evaluated found loop some_found in
      let kept = ap (λ x. x.reasons) none_made in
      let d = dispatch now item_id cmd intake loop (command_of cmd.command_type) e in
      let same =
        dispatch_refused item_id loop (command_of cmd.command_type) e
          (ap is_empty kept ∙ some_found) in
      let reasons = ap (λ x. x.reasons) same ∙ kept in
      let (status, accepted, executed) =
        refused_result e d (ap (any_reason is_rejecting) reasons ∙ duplicate_found) in
      (status, accepted, executed ∙ ap (λ x. x.executed) same, ap (λ x. x.loop) same)

has_key-kept :
    (k x : String) (keys : List String) → has_key k keys ≡ true → has_key k (add_key x keys) ≡ true
has_key-kept k x keys h = elim (Bool-cases (has_key x keys)) [
  | inl e ↦ rw e h
  | inr e ↦ rw e (ground (arith, h))
]

-- A command with what it finds: the time, the item's id, the client's connection, the loop and the rows.
pub record Arrival : Type 0 where
  pub now : ℕ
  pub item_id : String
  pub is_connected : Bool
  pub cmd : CloudCommandInbound
  pub loop : Option LoopView
  pub store : CommandStore

abbrev pub handle : CloudCommandIntake → Arrival → Handled
handle intake a = handle_command a.now a.item_id a.is_connected a.cmd intake a.loop a.store

-- The intake after a sequence of commands.
abbrev pub handle_all : List Arrival → CloudCommandIntake → CloudCommandIntake
handle_all [] intake = intake
handle_all (a ∷ rest) intake = handle_all rest (handle intake a).intake

seen_kept :
    (k : String) (arrivals : List Arrival) (intake : CloudCommandIntake)
    → has_key k intake.seen ≡ true
    → has_key k (handle_all arrivals intake).seen ≡ true
unfolding handle_command
seen_kept k [] intake h = h
seen_kept k (a ∷ rest) intake h =
    seen_kept k rest (handle intake a).intake (has_key-kept k a.cmd.correlation_id intake.seen h)

-- A correlation id is good for one command: after a command and any sequence of further commands, each on
-- whatever loop and database, a command with the id of the first is REJECTED, not accepted and not
-- executed, and leaves its loop as it is.
pub handled_once :
    (first : Arrival) (between : List Arrival) (again : Arrival) (intake : CloudCommandIntake)
    → again.cmd.correlation_id ≡ first.cmd.correlation_id
    → IsRefused again.loop (handle (handle_all (first ∷ between) intake) again)
unfolding handle_command
handled_once first between again intake same =
    let later : CloudCommandIntake = handle_all between (handle intake first).intake in
    let kept =
      seen_kept first.cmd.correlation_id between (handle intake first).intake
        (has_key-add first.cmd.correlation_id intake.seen) in
    seen-IsRefused again.now again.cmd later again.store
      (ap (λ k. has_key k later.seen) same ∙ kept) again.item_id again.is_connected again.loop
