-- ===== src/Cloud/CommandIntake/Safety.antt =====
-- What a cloud command can do to the outbound queue.
use intelipump.Cloud.CommandIntake.{result_of, handle_command}
use intelipump.Pump.Guards.{not_a_number, Blocking}
use intelipump.Pump.Guards.Eligibility.{permitted, ineligible_has_reason, eligible-eq-permitted}
use intelipump.Pump.Context.{PumpContext}
use intelipump.Controller.Outbound.Order.{enqueue_inv}
use intelipump.Cloud.CommandIntake.Evaluate.{
  is_empty, Evaluation, find_pump, live_context, evaluate, command_of, validation_reasons,
  eligibility, evaluation_of,
}
use intelipump.Pump.State.{is_non_idempotent, PumpCommand}
use intelipump.Controller.Safety.{OutboundDataItem}
use intelipump.Cloud.CommandIntake.Dispatch.{
  class_of, address_or_1, create_item, in_lab, Dispatched, cd1_code, dispatch, try_enqueue,
}
use intelipump.Cloud.CommandIntake.Types.{
  IntakeReason, LoopView, CloudCommandIntake, CloudCommandInbound, PumpRecord, CommandStore,
  blocked,
}
use intelipump.Common.{
  ℕ, String, ◌≡◌, refl, sym, ap, ◌⊎◌, inl, inr, true, false, ◌&&◌, ◌||◌, some, List, [], ◌∷◌, ◌++◌,
  Bool-cases, Option-cases, is_some, Result-cases, Option, none, arith, ◌∙◌, Bool, map,
  if◌then◌else◌, subst,
}
use intelipump.Controller.Outbound.{OutboundQueue, enqueue}

enqueue_appends :
    (now : ℕ) (item : OutboundDataItem) (l : LoopView) (reasons : List IntakeReason)
    → let d = try_enqueue now item l reasons in
      ((d.executed ≡ false) × (d.loop ≡ some l))
      ⊎ ((q : OutboundQueue) × (d.executed ≡ true)
          × (d.loop ≡ some (record l { outbound = q }))
          × (q.items ≡ l.outbound.items ++ item ∷ []))
unfolding try_enqueue
enqueue_appends now item l reasons =
    let lab = record l.safety { allow_lab_simulator_commands = true } in
    elim (Result-cases (enqueue now item lab l.outbound)) [
      | inr (x, e) ↦ rw (try_enqueue, e) (inl (refl, refl))
      | inl (q, e) ↦
          let (_, _, _, image) = enqueue_inv now item lab l.outbound e in
          rw (try_enqueue, e) (inr (q, refl, refl, sym (ap (λ r. r.items) image)))
    ]

module _ (now : ℕ) (item_id : String) (cmd : CloudCommandInbound)
    (intake : CloudCommandIntake) where
  -- What a command that was executed on a loop did, given the evaluation that went before.
  abbrev Queues : LoopView → PumpCommand → Evaluation → Dispatched → Type 0
  Queues l c e d =
      (code : ℕ) × (q : OutboundQueue) × (cd1_code c ≡ some code)
      × (in_lab cmd intake (some l) ≡ true)
      × (e.reasons ≡ [])
      × (d.loop ≡ some (record l { outbound = q }))
      × (q.items
          ≡ l.outbound.items
            ++ create_item now item_id (address_or_1 e.context) c code (class_of c) ∷ [])

  empty : {A : Type 0} (xs : List A) → is_empty xs ≡ true → xs ≡ []
  empty [] h = refl
  empty (x ∷ xs) h = absurd (ground (arith, h))

  dispatch_cases :
      (l : LoopView) (c : PumpCommand) (e : Evaluation)
      → let d = dispatch now item_id cmd intake (some l) (some c) e in
        ((d.executed ≡ false) × (d.loop ≡ some l)) ⊎ ((d.executed ≡ true) × Queues l c e d)
  unfolding dispatch
  dispatch_cases l c e = elim (Option-cases (cd1_code c)) [
    | inl n ↦ rw (dispatch, n) (inl (refl, refl))
    | inr (code, s) ↦
        let test =
          in_lab cmd intake (some l)
          && is_empty e.reasons
          && (is_non_idempotent c || is_some e.context) in
        let item = create_item now item_id (address_or_1 e.context) c code (class_of c) in
        elim (Bool-cases test) [
          | inr f ↦ rw (dispatch, s, f) (inl (refl, refl))
          | inl t ↦ elim (enqueue_appends now item l e.reasons) [
            | inl (x, same) ↦ rw (dispatch, s, t) (inl (x, same))
            | inr (q, x, moved, items) ↦
                rw (dispatch, s, t)
                  (inr (
                    x,
                    (
                      code,
                      q,
                      refl,
                      ground (arith, t),
                      empty e.reasons (ground (arith, t)),
                      moved,
                      items,
                    ),
                  ))
          ]
        ]
  ]

-- The pump that the command names, and that it is eligible there.
abbrev pub IsEligible :
    CloudCommandInbound → PumpCommand → Option LoopView → CommandStore → PumpContext → Type 0
IsEligible cmd c loop store context =
    (pump : PumpRecord) × (find_pump cmd.pump_id store.pumps ≡ some pump)
    × (live_context pump loop store ≡ context)
    × (permitted {V = ℕ} (λ v. not_a_number) c context none ≡ true)

cleared :
    (b : Bool) (found : List Blocking)
    → (found ≡ [] → b ≡ true)
    → (if b then [] else map blocked found) ≡ []
    → b ≡ true
cleared true found k h = refl
cleared false [] k h = k refl
cleared false (r ∷ rs) k h = absurd (ground (arith, h))

evaluate_clear :
    (cmd : CloudCommandInbound) (c : PumpCommand) (loop : Option LoopView) (store : CommandStore)
    → (evaluate cmd c loop store).reasons ≡ []
    → (context : PumpContext) × ((evaluate cmd c loop store).context ≡ some context)
      × IsEligible cmd c loop store context
unfolding evaluate
evaluate_clear cmd c loop store h = elim (Option-cases (find_pump cmd.pump_id store.pumps)) [
  | inl e ↦ absurd (ground (arith, rw (evaluate, e) at h))
  | inr (pump, e) ↦
      let context = live_context pump loop store in
      let able =
        cleared (eligibility c context).eligible (eligibility c context).blocking_reasons
          (ineligible_has_reason (λ v. not_a_number) c context none false false)
          (rw (evaluate, e) at h) in
      rw (evaluate, e)
        (
          context,
          refl,
          (
            pump,
            refl,
            refl,
            sym (eligible-eq-permitted (λ v. not_a_number) c context none false false) ∙ able,
          ),
        )
]

evaluation_clear :
    (reasons : List IntakeReason) (cmd : CloudCommandInbound) (c : PumpCommand)
    (loop : Option LoopView) (store : CommandStore)
    → command_of cmd.command_type ≡ some c
    → (evaluation_of reasons cmd loop store).reasons ≡ []
    → (reasons ≡ [])
      × (context : PumpContext) × ((evaluation_of reasons cmd loop store).context ≡ some context)
      × IsEligible cmd c loop store context
unfolding evaluation_of
evaluation_clear [] cmd c loop store known h =
    let (context, at, able) = evaluate_clear cmd c loop store (rw known at h) in
    rw (evaluation_of, known) (refl, context, at, able)
evaluation_clear (r ∷ rs) cmd c loop store known h = absurd (ground (arith, h))

module _ (now : ℕ) (item_id : String) (is_connected : Bool) (cmd : CloudCommandInbound)
    (intake : CloudCommandIntake) (store : CommandStore) (l : LoopView) where
  -- The command is on the queue, last, and all that it needs was there.
  abbrev pub IsQueued : Option LoopView → Type 0
  IsQueued after =
      (c : PumpCommand) × (context : PumpContext) × (code : ℕ) × (q : OutboundQueue) × (command_of
          cmd.command_type
        ≡ some c)
      × (cd1_code c ≡ some code)
      × (in_lab cmd intake (some l) ≡ true)
      × (validation_reasons now cmd intake store ≡ [])
      × IsEligible cmd c (some l) store context
      × (after ≡ some (record l { outbound = q }))
      × (q.items
          ≡ l.outbound.items
            ++ create_item now item_id context.dart_address c code (class_of c) ∷ [])

  -- The theorem below, for the command as the code reads it.
  abbrev Does : Option PumpCommand → Type 0
  Does command =
      let d =
        dispatch now item_id cmd intake (some l) command
          (evaluation_of (validation_reasons now cmd intake store) cmd (some l) store) in
      ((d.executed ≡ false) × (d.loop ≡ some l)) ⊎ ((d.executed ≡ true) × IsQueued d.loop)

  -- Handling a cloud command either executes nothing and leaves the loop as it is; or the command is of
  -- a known type with a wire code, it was for the simulator only, in the LAB environment with laboratory
  -- commands allowed and a virtual transport, nothing was wrong with its station, environment, schema,
  -- expiry and identity, its pump was found and the command permitted in the context of that pump, and
  -- then the loop's queue has one more item, for that pump, and nothing else of the loop has changed.
  pub executed_only_in_lab :
      ((handle_command now item_id is_connected cmd intake (some l) store).result.executed ≡ false)
        × ((handle_command now item_id is_connected cmd intake (some l) store).loop ≡ some l)
      ⊎ ((handle_command now item_id is_connected cmd intake (some l) store).result.executed ≡ true)
        × IsQueued (handle_command now item_id is_connected cmd intake (some l) store).loop
  unfolding handle_command result_of dispatch
  executed_only_in_lab = elim (Option-cases (command_of cmd.command_type)) [
    | inl e ↦ subst Does (sym e) (inl (refl, refl))
    | inr (c, e) ↦
        let found = validation_reasons now cmd intake store in
        let eval = evaluation_of found cmd (some l) store in
        subst Does (sym e) (elim (dispatch_cases now item_id cmd intake l c eval) [
          | inl stays ↦ inl stays
          | inr (done, (code, q, s, lab, clear, moved, items)) ↦
              let (right, context, at, able) =
                evaluation_clear found cmd c (some l) store e clear in
              let queue = λ (o : Option PumpContext).
                l.outbound.items
                ++ create_item now item_id (address_or_1 o) c code (class_of c) ∷ [] in
              inr (done, (c, context, code, q, e, s, lab, right, able, moved, items ∙ ap queue at))
        ])
  ]
