-- ===== src/Simulator/Encoding/Received.antt =====
-- What the controller makes of the transactions that the dispenser encodes.
use intelipump.Common.{
  ℕ, suc, ◌*◌, ◌^◌, ◌<◌, bit_and, ◌≡◌, refl, ap, Bool, true, false, not, ◌&&◌, some, length-append,
  Option, List, [], ◌∷◌, ◌++◌, arith, ◌==◌, length, ok, if◌then◌else◌,
}
use intelipump.Common.Bits.{all_below, all_below_sound}
use intelipump.App.Bcd.{decode_packed_bcd}
use intelipump.Pump.State.{PumpState, PumpEvent, nozzle_lifted, nozzle_returned, ready_observed}
use intelipump.Pump.Wayne.{MapperContext, nozzle_in_use, map_wayne_observation}
use intelipump.Pump.Wayne.Laws.{nozzle_heard}
use intelipump.Simulator.Encoding.{encode_dc3_nozzle_price}
use intelipump.App.Fields.{decode_scaled_bcd}
use intelipump.App.Decoder.Payload.{single, alone, decode_single}
use intelipump.App.Bcd.Laws.{encode_within}
use intelipump.App.Transaction.{
  dc3_nozzle_status_price, body_or_empty, int_of, flag_of, lookup, ApplicationTransaction,
}
use intelipump.App.Decoder.{
  at_byte, DecodeArguments, decode_dc3_preferred, envelope, dc3_body, decode_raw_transaction,
  decode_data_payload,
}
use intelipump.Simulator.Encoding.{tx, packed, nozio}

tx_fits :
    (id : ℕ) (data' : List ℕ) → length data' < 256 → tx id data' ≡ ok (id ∷ length data' ∷ data')
unfolding tx
tx_fits id data' h = ground arith

nozio_table :
    all_below 16 (λ n.
      bit_and (nozio n true) 0x0F == n
      && not (bit_and (nozio n true) 0x10 == 0)
      && (bit_and (nozio n false) 0x0F == n && bit_and (nozio n false) 0x10 == 0))
    ≡ true
unfolding all_below nozio
nozio_table = refl

nozio_read :
    (n : ℕ) (out : Bool)
    → n < 16
    → (bit_and (nozio n out) 0x0F ≡ n) × (not (bit_and (nozio n out) 0x10 == 0) ≡ out)
nozio_read n true h = ground (arith, all_below_sound 16 _ n nozio_table h)
nozio_read n false h = ground (arith, all_below_sound 16 _ n nozio_table h)

packed_within :
    (value width : ℕ)
    → value < 10 ^ (2 * suc width)
    → (bytes : List ℕ) × (packed value (suc width) ≡ ok bytes)
      × (length bytes ≡ suc width)
      × (decode_packed_bcd bytes ≡ ok value)
packed_within value width h =
    let (bytes, e, n, d) = encode_within value width h in (bytes, rw (packed, e) refl, n, d)

at_byte-append :
    {A : Type 0} (xs : List ℕ) (x : ℕ) (f : ℕ → A)
    → at_byte (length xs) (xs ++ x ∷ []) f ≡ some (f x)
at_byte-append [] x f = refl
at_byte-append (y ∷ xs) x f = at_byte-append xs x f

-- The transaction names the nozzle, and says whether it is out.
abbrev pub Names : ApplicationTransaction → ℕ → Bool → Type 0
Names heard nozzle out =
    (heard.transaction_type ≡ dc3_nozzle_status_price)
    × (int_of (lookup "selected_logical_nozzle" (body_or_empty heard.decoded_body)) ≡ some nozzle)
    × (flag_of (lookup "nozzle_out" (body_or_empty heard.decoded_body)) ≡ some out)

dc3-Names :
    (args : DecodeArguments) (nozzle : ℕ) (out : Bool) (price : List ℕ) (value : ℕ)
    → nozzle < 16
    → length price ≡ 3
    → decode_packed_bcd price ≡ ok value
    → (heard : ApplicationTransaction) × (decode_raw_transaction
          (single 0x03 (price ++ nozio nozzle out ∷ []))
          args
        ≡ some heard)
      × Names heard nozzle out
unfolding decode_raw_transaction decode_dc3_preferred decode_scaled_bcd dc3_body envelope
dc3-Names args nozzle out [] value small sized d = absurd (omega arith)
dc3-Names args nozzle out (a ∷ []) value small sized d = absurd (omega arith)
dc3-Names args nozzle out (a ∷ b ∷ []) value small sized d = absurd (omega arith)
dc3-Names args nozzle out (a ∷ b ∷ c ∷ []) value small sized d =
    let (low, high) = nozio_read nozzle out small in
    rw (decode_raw_transaction, decode_dc3_preferred, decode_scaled_bcd, d)
      (_, refl, (refl, ap some low, ap some high))
dc3-Names args nozzle out (a ∷ b ∷ c ∷ e ∷ rest) value small sized d = absurd (omega arith)

-- What the nozzle's transaction means in a state.
abbrev pub nozzle_event : Bool → Option PumpState → PumpEvent
nozzle_event out state =
    if out then nozzle_lifted else if nozzle_in_use state then nozzle_returned else ready_observed

-- The dispenser's DC3 of a price of at most six digits and a nozzle below 16 is always encoded, and the
-- controller reads it as it was meant: the payload decodes to one transaction, which the mapper, told
-- that the pump sent it, turns into the same nozzle lifted when it is out, and otherwise returned or
-- ready as the state of the machine has it.
pub dc3_received :
    (args : DecodeArguments) (ctx : MapperContext) (price nozzle : ℕ) (out : Bool)
    → price < 10 ^ 6
    → nozzle < 16
    → ctx.resolve_as_cd3 ≡ false
    → ctx.resolve_as_dc3 ≡ true
    → (bytes : List ℕ) × (encode_dc3_nozzle_price price nozzle out ≡ ok bytes)
      × (heard : ApplicationTransaction) × (decode_data_payload bytes args ≡ some (alone heard))
      × ((map_wayne_observation heard ctx).event ≡ nozzle_event out ctx.current_state)
      × ((map_wayne_observation heard ctx).selected_nozzle ≡ some nozzle)
unfolding encode_dc3_nozzle_price
dc3_received args ctx price nozzle out fits small cd3 dc3 =
    let (packed_price, e, sized, d) = packed_within price 2 fits in
    let (heard, f, (type, n, o)) = dc3-Names args nozzle out packed_price price small sized d in
    let data' = packed_price ++ nozio nozzle out ∷ [] in
    let (event, selected) = nozzle_heard heard ctx nozzle out type cd3 dc3 n o in
    (
      0x03 ∷ length data' ∷ data',
      rw (encode_dc3_nozzle_price, e)
          (tx_fits 0x03 data'
            (ground (arith, sized, length-append {0} packed_price (nozio nozzle out ∷ [])))),
      heard,
      decode_single 0x03 data' args f,
      event,
      selected,
    )
