-- ===== src/BaseApp/Runner.antt =====
-- gears/src/baseapp/mod.rs and gears/src/baseapp/mode: how a transaction is run, in either mode. The
-- application's handler, the decoding of a transaction and the consensus parameters are parameters.
pub mod Outcomes
use Prim.Native.String.{String}
use gears.Base.{ℕ, Bool, true, false, Option, none, some, List, [], ◌∷◌}
use gears.Base.Order.{Bytes}
use gears.Base.Results.{Result, ok, err, map_err}
use gears.Base.Exec.{Exec, pure, lift, ◌>>=◌, ◌>>◌}
use gears.Gas.Meter.{
  Gas, GasMeter, GasMeteringErrors, consume_gas, is_out_of_gas, limit, gas_consumed_or_limit,
  build_tx_gas_meter,
}
use gears.KvStore.Transaction.{TransactionKvBank, tx_cache_clear, upgrade_cache}
use gears.BaseApp.State.{TxMode}

-- The application's errors and events, its transactions and messages.
pub record Application : Type 1 where
  pub TxError : Type 0
  pub Event : Type 0
  pub Tx : Type 0
  pub Message : Type 0

module _ (app : Application) where
  open app use {TxError, Event, Tx, Message}

  pub data RunTxError : Type 0 where
    out_of_block_gas : RunTxError
    invalid_transaction invalid_message : String → RunTxError
    gas_errors : GasMeteringErrors → RunTxError
    application : TxError → RunTxError

  -- `TxContext`, without the header, the parameters and the options, which do not change
  pub record TxContext : Type 0 where
    pub gas_meter : GasMeter
    pub events : List Event
    pub block_gas_meter : GasMeter
    pub multi_store : TransactionKvBank

  pub record RunTxInfo : Type 0 where
    pub events : List Event
    pub gas_wanted : Gas
    pub gas_used : ℕ

  abbrev pub Runs : Type 0 → Type 0
  Runs A = Exec TxContext RunTxError A

  -- The methods of the handler on a context, and what the decoded transaction holds.
  pub record Handler : Type 0 where
    pub from_bytes : Bytes → Result String Tx
    pub gas_limit : Tx → ℕ
    pub get_msgs : Tx → List Message
    pub run_ante_checks : Tx → Bool → Exec TxContext TxError (Unit {0})
    pub msg : Message → Exec TxContext TxError (Unit {0})

  -- `MultiStoreMut::clear_cache` on the context's store
  abbrev pub cleared : TxContext → TxContext
  cleared c = record c { multi_store = tx_cache_clear c.multi_store }

  -- `inspect_err(|_| ctx.multi_store_mut().clear_cache())`, with the error converted
  abbrev pub clear_on :
      Result TxError (Unit {0}) → TxContext → Result RunTxError (Unit {0}) × TxContext
  clear_on (ok x) c = (ok x, c)
  clear_on (err e) c = (err (application e), cleared c)

  abbrev pub clearing : Exec TxContext TxError (Unit {0}) → Runs (Unit {0})
  clearing m c = let (r, d) = m c in clear_on r d

  -- `ExecutionMode`, implemented by `CheckTxMode` and `DeliverTxMode`
  pub data ExecutionMode : Type 0 where
    check deliver : ExecutionMode

  unfoldable pub runnable : ExecutionMode → Runs (Unit {0})
  runnable check c = (ok tt, c)
  runnable deliver c = elim (is_out_of_gas c.block_gas_meter) [
    | true ↦ (err out_of_block_gas, c)
    | false ↦ (ok tt, c)
  ]

  abbrev pub is_check : ExecutionMode → Bool
  is_check check = true
  is_check deliver = false

  abbrev pub events_drain : Runs (List Event)
  events_drain c = (ok c.events, record c { events = [] })

  module _ (handler : Handler) where
    unfoldable pub run_ante_checks : ExecutionMode → Tx → Runs (Unit {0})
    run_ante_checks mode tx = clearing (handler.run_ante_checks tx (is_check mode))

    -- The loop of `run_msg` in the mode of delivery.
    unfoldable pub run_each : List Message → Runs (Unit {0})
    run_each [] = pure tt
    run_each (m ∷ msgs) = clearing (handler.msg m) >> run_each msgs

    unfoldable pub run_msg : ExecutionMode → List Message → Runs (List Event)
    unfolding run_each
    run_msg check msgs = events_drain
    run_msg deliver msgs = run_each msgs >> events_drain

    abbrev pub upgraded : TxContext → TxContext
    upgraded c = record c { multi_store = upgrade_cache c.multi_store }

    -- The end of `run_tx`: the block is charged and the writes are moved to it.
    unfoldable pub settle : ℕ → Runs (Unit {0})
    settle gas_used c =
        let (r, m) = consume_gas gas_used "block gas meter" c.block_gas_meter in
        elim r [
          | ok _ ↦ (ok tt, upgraded (record c { block_gas_meter = m }))
          | err e ↦ (err (gas_errors e), record c { block_gas_meter = m })
        ]

    -- What follows the ante checks.
    unfoldable pub run_rest : ExecutionMode → Tx → Runs RunTxInfo
    unfolding run_msg settle
    run_rest mode tx c =
        let gas_wanted = limit c.gas_meter in
        let gas_used = gas_consumed_or_limit c.gas_meter in
        (run_msg mode (handler.get_msgs tx) >>= λ events. settle gas_used >>= λ _.
        pure (record { events = events; gas_wanted = gas_wanted; gas_used = gas_used }))
          (upgraded c)

    unfoldable pub run_decoded : ExecutionMode → Tx → Runs RunTxInfo
    unfolding runnable run_ante_checks run_rest
    run_decoded mode tx = (runnable mode >> run_ante_checks mode tx) >> run_rest mode tx

    abbrev pub context : ℕ → Tx → TxMode → TxContext
    context height tx mode = record {
      gas_meter = build_tx_gas_meter height (some (handler.gas_limit tx));
      events = [];
      block_gas_meter = mode.block_gas_meter;
      multi_store = mode.multi_store;
    }

    -- The result, and the meter and the store of the mode that are left.
    unfoldable pub run_tx :
        ExecutionMode → ℕ → Bytes → TxMode → Result RunTxError RunTxInfo × TxMode
    unfolding run_decoded
    run_tx mode height raw state = elim (handler.from_bytes raw) [
      | err e ↦ (err (invalid_transaction e), state)
      | ok tx ↦
          let (r, c) = run_decoded mode tx (context height tx state) in
          (r, record { block_gas_meter = c.block_gas_meter; multi_store = c.multi_store })
    ]
