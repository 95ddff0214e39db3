-- ===== src/Tests/Runs.antt =====
-- The theorems on the run of a transaction, with a handler that writes and fails.
use gears.Base.{◌≡◌, refl, ℕ, [], ◌∷◌, ◌==◌, if◌then◌else◌}
use gears.Base.Order.{Bytes}
use gears.Base.Results.{ok, err}
use gears.Gas.Meter.{GasMeter, basic_meter, new_basic, gas_consumed_or_limit}
use gears.Gas.Meter
use gears.Gas.Amount
use gears.KvStore.Cache.{empty}
use gears.KvStore.Transaction.{TransactionKvBank}
use gears.KvStore.Transaction
use gears.BaseApp.State.{TxMode}
use gears.BaseApp.Runner.{Application, RunTxInfo, TxContext, Handler, deliver, run_tx}
use gears.BaseApp.Runner

abbrev app : Application
app = record { TxError = ℕ; Event = ℕ; Tx = Bytes; Message = ℕ }

abbrev writes : ℕ → TxContext app → TxContext app
writes n c = record c {
  multi_store = Transaction.set c.multi_store (n ∷ []) (n ∷ []);
  gas_meter = basic_meter 100 10;
}

-- A transaction's bytes are its messages; message 0 fails.
abbrev handler : Handler app
handler = record {
  from_bytes = λ raw. ok raw;
  gas_limit = λ tx. 100;
  get_msgs = λ tx. tx;
  run_ante_checks = λ tx check c. (ok tt, writes 9 c);
  msg = λ m c. ((if m == 0 then err 7 else ok tt), writes m c);
}

abbrev state : TxMode
state = record {
  block_gas_meter = basic_meter 1000 0;
  multi_store = record { tx = empty; block = empty };
}

abbrev info : RunTxInfo app
info = record { events = []; gas_wanted = Meter.finite 100; gas_used = 10 }

succeeding : (run_tx app handler deliver 3 (5 ∷ []) state).0 ≡ ok info
unfolding run_tx Runner.run_decoded Runner.runnable Runner.run_ante_checks Runner.run_rest
    Runner.run_msg Runner.run_each Runner.settle Meter.is_out_of_gas Meter.limit
    Meter.gas_consumed_or_limit Meter.is_past_limit Meter.consume_gas Amount.checked_add
succeeding = refl
