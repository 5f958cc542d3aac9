-- ===== src/Alerts/Tests.antt =====
-- An outage that is alerted and settled, and the cap at these inputs.
use render_cart.Prelude.{true, false, none, some, List, [], ◌∷◌}
use render_cart.Prelude.Int.{pos}
use render_cart.Access.{Level}
use render_cart.Credits.{Wallet}
use render_cart.Alerts.{AlertRows, Alert, AlertReferences, AlertStep, reserve_step, settle_step}

abbrev wallet : Wallet
wallet = record {
  account = some (record { balance = pos 5; held = 0 });
  lots =
      record {
        id = 1;
        source_ledger_id = 11;
        total = 5;
        remaining = 5;
        held = 0;
        expires_at = none;
        created_at = 10;
      }
      ∷ [];
  reservations = [];
  ledger = [];
}

abbrev rows : AlertRows
rows = record { wallet = wallet; usages = λ q. none; deliveries = [] }

abbrev names : AlertReferences
names = record {
  hold = λ i. "monitor-sms:3:hold";
  spend = λ i. "monitor-sms:3:spend";
  release = λ i. "monitor-sms:3:release";
}

abbrev outage : Alert
outage = record {
  monitor_id = 9;
  outage_generation = 1;
  recovered = false;
  delivery_id = 3;
  ledger_id = 40;
  now = 100;
  month = 7;
  level = Level.pro;
}

-- The outage is reserved once, though it is reported twice, and sent.
abbrev steps : List AlertStep
steps = reserve_step outage ∷ reserve_step outage ∷ settle_step 41 3 true ∷ []
