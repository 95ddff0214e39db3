-- ===== src/BaseApp/Runner/Outcomes.antt =====
-- What a failed transaction leaves of the block's writes, and what gas a transaction reports.
use gears.Base.{◌≡◌, ◌∙◌, refl, ap, ℕ, false, List, arith}
use gears.Base.Order.{Bytes}
use gears.Base.Results.{Result, ok, err}
use gears.Base.Exec.{Exec, pure, continue, ◌>>=◌, ◌>>◌}
use gears.Gas.Meter.{Gas, limit, gas_consumed_or_limit}
use gears.KvStore.Cache.{KvCache}
use gears.BaseApp.State.{TxMode}
use gears.BaseApp.Runner.{
  Application, RunTxError, RunTxInfo, TxContext, Handler, Runs, ExecutionMode, check, deliver,
  clear_on, runnable, is_check, run_ante_checks, run_msg, upgraded, settle, run_rest, run_decoded,
  context, run_tx,
}

module _ (app : Application) (handler : Handler app) where
  open app use {TxError, Event, Tx, Message}

  abbrev block : TxContext app → KvCache
  block c = c.multi_store.block

  -- The method leaves the block's writes alone: it writes to the transaction's only.
  abbrev pub Leaves : {E A : Type 0} → Exec (TxContext app) E A → Type 0
  Leaves m = (c : TxContext app) → block (m c).1 ≡ block c

  -- The tests before the messages.
  abbrev gate : ExecutionMode app → Tx → Runs app (Unit {0})
  gate mode tx = runnable app mode >> run_ante_checks app handler mode tx

  abbrev pub after_ante : ExecutionMode app → Tx → TxContext app → TxContext app
  after_ante mode tx c = (handler.run_ante_checks tx (is_check app mode) c).1

  clear_on_passes :
      (r : Result TxError (Unit {0})) (c : TxContext app)
      → (clear_on app r c).0 ≡ ok tt
      → (clear_on app r c).1 ≡ c
  clear_on_passes (ok x) c h = refl
  clear_on_passes (err e) c h = cc

  gate_passes :
      (mode : ExecutionMode app) (tx : Tx) (c : TxContext app)
      → (gate mode tx c).0 ≡ ok tt
      → (gate mode tx c).1 ≡ after_ante mode tx c
  unfolding runnable run_ante_checks
  gate_passes check tx c h = clear_on_passes _ _ h
  gate_passes deliver tx c h = ground (
    arith,
    clear_on_passes (handler.run_ante_checks tx false c).0 (handler.run_ante_checks tx false c).1,
  )

  reported :
      (gas : ℕ) (wanted : Gas) (info : RunTxInfo app) (events : List Event) (c : TxContext app)
      → (continue
          (settle app handler gas c).0
          (λ _. pure (record { events = events; gas_wanted = wanted; gas_used = gas }))
          (settle app handler gas c).1).0
        ≡ ok info
      → info.gas_used ≡ gas
  unfolding settle
  reported gas wanted info events c h = ground arith

  messages_reported :
      (gas : ℕ) (wanted : Gas) (info : RunTxInfo app)
      → (r : Result (RunTxError app) (List Event)) (c : TxContext app)
      → (continue r
          (λ events. settle app handler gas >>= λ _.
            pure (record { events = events; gas_wanted = wanted; gas_used = gas }))
          c).0
        ≡ ok info
      → info.gas_used ≡ gas
  messages_reported gas wanted info (ok events) c h = reported gas wanted info events c h
  messages_reported gas wanted info (err e) c h = cc

  passed_reports :
      (mode : ExecutionMode app) (tx : Tx) (info : RunTxInfo app) (after : TxContext app)
      → (r : Result (RunTxError app) (Unit {0})) (c : TxContext app) → (r ≡ ok tt → c ≡ after)
      → (continue r (λ _. run_rest app handler mode tx) c).0 ≡ ok info
      → info.gas_used ≡ gas_consumed_or_limit after.gas_meter
  unfolding run_rest
  passed_reports mode tx info after (ok x) c f h =
      let ran = run_msg app handler mode (handler.get_msgs tx) (upgraded app handler c) in
      messages_reported (gas_consumed_or_limit c.gas_meter) (limit c.gas_meter) info ran.0 ran.1 h
      ∙ ap (λ (d : TxContext app). gas_consumed_or_limit d.gas_meter) (f refl)
  passed_reports mode tx info after (err e) c f h = cc

  -- A transaction that succeeds reports, and charges to the block, the gas that its ante checks
  -- consumed: what its messages consume is not counted.
  pub run_tx-gas_used :
      (mode : ExecutionMode app) (height : ℕ) (raw : Bytes) (tx : Tx) (state : TxMode)
      (info : RunTxInfo app)
      → handler.from_bytes raw ≡ ok tx
      → (run_tx app handler mode height raw state).0 ≡ ok info
      → info.gas_used
        ≡ gas_consumed_or_limit (after_ante mode tx (context app handler height tx state)).gas_meter
  unfolding run_tx run_decoded
  run_tx-gas_used mode height raw tx state info decoded h =
      let c = context app handler height tx state in
      passed_reports mode tx info (after_ante mode tx c) (gate mode tx c).0 (gate mode tx c).1
        (gate_passes mode tx c) (rw (run_tx, decoded) at h)
