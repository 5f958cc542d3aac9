-- ===== src/Alerts.antt =====
-- The SMS of uptime monitors: `_reserve_monitor_sms` and `_settle_monitor_sms` of
-- backend/src/rendercart/jobs/tasks.py, on the rows of one user (business/models.py). A month has one
-- usage row, by a unique constraint, so the rows are a function of the month.
pub mod Cap
mod Tests
use render_cart.Prelude.{
  ℕ, ◌+◌, ◌-◌, String, Bool, true, false, not, ◌&&◌, Option, none, some, List, [], ◌∷◌, ◌++◌,
  if◌then◌else◌, ◌==◌, ltb, leb, any_of, find_by, update_by,
}
use render_cart.Prelude.Int.{ℤ, pos, pos_part, ◌-ℤ◌}
use render_cart.Access.{Level, below}
use render_cart.Credits.{Account, Lot, Entry, Wallet, find_lot, update_lot, usable_lots}
use render_cart.Credits.Reserve.{add_held, first_free, short_of}

pub data DeliveryStatus : Type 0 where
  pending sent failed : DeliveryStatus

-- `UptimeMonitorSmsDelivery`; the month is that of `created_at`.
pub record Delivery : Type 0 where
  pub id : ℕ
  pub monitor_id : ℕ
  pub outage_generation : ℕ
  pub recovered : Bool
  pub status : DeliveryStatus
  pub credit_lot_id : Option ℕ
  pub month : ℕ

-- `UptimeMonitorSmsUsage`
pub record Usage : Type 0 where
  pub sent : ℕ
  pub reserved : ℕ

pub record AlertRows : Type 0 where
  pub wallet : Wallet
  pub usages : ℕ → Option Usage
  pub deliveries : List Delivery

-- A call for an alert: the event, the fresh ids, the time, its month, and the user's level.
pub record Alert : Type 0 where
  pub monitor_id : ℕ
  pub outage_generation : ℕ
  pub recovered : Bool
  pub delivery_id : ℕ
  pub ledger_id : ℕ
  pub now : ℕ
  pub month : ℕ
  pub level : Level

abbrev pub same_bool : Bool → Bool → Bool
same_bool true b = b
same_bool false b = not b

abbrev pub same_event : Alert → Delivery → Bool
same_event a d =
    d.monitor_id == a.monitor_id
    && (d.outage_generation == a.outage_generation && same_bool d.recovered a.recovered)

abbrev pub no_usage : Usage
no_usage = record { sent = 0; reserved = 0 }

abbrev pub or_new : Option Usage → Usage
or_new none = no_usage
or_new (some u) = u

abbrev pub at_cap : (cap : ℕ) → Option Usage → Bool
at_cap cap none = false
at_cap cap (some u) = leb cap (u.sent + u.reserved)

-- The formatted references of the ledger rows of a delivery.
pub record AlertReferences : Type 0 where
  pub hold : ℕ → String
  pub spend : ℕ → String
  pub release : ℕ → String

abbrev pub sms_entry : ℕ → ℤ → (kind reference : String) → Entry
sms_entry id amount kind reference = record {
  id = id;
  job_id = none;
  amount = amount;
  kind = kind;
  reference_id = some reference;
  expires_at = none;
}

abbrev pub set_usage : ℕ → Usage → AlertRows → AlertRows
set_usage month u r = record r { usages = λ q. if q == month then some u else r.usages q }

abbrev pub pending_delivery : Alert → Lot → Delivery
pending_delivery a l = record {
  id = a.delivery_id;
  monitor_id = a.monitor_id;
  outage_generation = a.outage_generation;
  recovered = a.recovered;
  status = pending;
  credit_lot_id = some l.id;
  month = a.month;
}

-- The rows of a reservation: one credit of the lot is held, and one SMS of the month.
abbrev pub hold_alert : AlertReferences → Alert → Account → Lot → AlertRows → AlertRows
hold_alert names a account l r =
    let u = or_new (r.usages a.month) in
    set_usage a.month (record u { reserved = u.reserved + 1 })
      (record r {
        wallet = record r.wallet {
          account = some (record account { held = account.held + 1 });
          lots = update_lot l.id (add_held 1) r.wallet.lots;
          ledger =
              r.wallet.ledger
              ++ sms_entry a.ledger_id (pos 0) "hold" (names.hold a.delivery_id) ∷ [];
        };
        deliveries = r.deliveries ++ pending_delivery a l ∷ [];
      })

abbrev pub charge_alert :
    AlertReferences → Alert → Option Account → AlertRows → Option ℕ × AlertRows
charge_alert names a none r = (none, r)
charge_alert names a (some account) r =
    if short_of 1 account then (none, r) else elim (first_free (usable_lots a.now r.wallet.lots)) [
      | none ↦ (none, r)
      | some l ↦ (some a.delivery_id, hold_alert names a account l r)
    ]

-- `_reserve_monitor_sms`; none is a refusal.
unfoldable pub reserve_monitor_sms :
    AlertReferences → (cap : ℕ) → Alert → AlertRows → Option ℕ × AlertRows
reserve_monitor_sms names cap a r =
    if any_of (same_event a) r.deliveries
    then (none, r)
    else if below a.level Level.pro
    then (none, r)
    else if at_cap cap (r.usages a.month)
    then (none, r)
    else charge_alert names a r.wallet.account r

abbrev pub is_pending : DeliveryStatus → Bool
is_pending pending = true
is_pending _ = false

abbrev pub settle_account : (sent_now : Bool) → Account → Account
settle_account sent_now a = record {
  balance = if sent_now then pos (pos_part (a.balance -ℤ pos 1)) else a.balance;
  held = a.held - 1;
}

abbrev pub settle_held : Bool → Option Account → Option Account
settle_held sent_now none = none
settle_held sent_now (some a) = some (settle_account sent_now a)

abbrev pub settle_lot : (sent_now : Bool) → Lot → Lot
settle_lot sent_now l = record l {
  remaining = if sent_now then l.remaining - 1 else l.remaining;
  held = l.held - 1;
}

abbrev pub settle_usage : (sent_now : Bool) → Usage → Usage
settle_usage sent_now u = record {
  sent = if sent_now then u.sent + 1 else u.sent;
  reserved = u.reserved - 1;
}

abbrev pub settle_in : Bool → Option Usage → ℕ → AlertRows → AlertRows
settle_in sent_now none month r = r
settle_in sent_now (some u) month r = set_usage month (settle_usage sent_now u) r

abbrev pub settle_lots : Bool → Option ℕ → List Lot → List Lot
settle_lots sent_now none lots = lots
settle_lots sent_now (some i) lots = update_lot i (settle_lot sent_now) lots

abbrev pub settled_entry : AlertReferences → (ledger_id : ℕ) → Bool → ℕ → Entry
settled_entry names ledger_id sent_now delivery =
    if sent_now
    then sms_entry ledger_id (pos 0 -ℤ pos 1) "spend" (names.spend delivery)
    else sms_entry ledger_id (pos 0) "release" (names.release delivery)

abbrev pub end_delivery : Bool → Delivery → Delivery
end_delivery sent_now d = record d { status = if sent_now then sent else failed }

abbrev pub settle_delivery :
    AlertReferences → (ledger_id : ℕ) → Bool → Delivery → AlertRows → AlertRows
settle_delivery names ledger_id sent_now d r =
    settle_in sent_now (r.usages d.month) d.month (record r {
      wallet = record r.wallet {
        account = settle_held sent_now r.wallet.account;
        lots = settle_lots sent_now d.credit_lot_id r.wallet.lots;
        ledger = r.wallet.ledger ++ settled_entry names ledger_id sent_now d.id ∷ [];
      };
      deliveries = update_by (λ x. x.id == d.id) (end_delivery sent_now) r.deliveries;
    })

abbrev pub settle_found :
    AlertReferences → (ledger_id : ℕ) → (sent_now : Bool) → Option Delivery → AlertRows → AlertRows
settle_found names ledger_id sent_now none r = r
settle_found names ledger_id sent_now (some d) r =
    if is_pending d.status then settle_delivery names ledger_id sent_now d r else r

-- `_settle_monitor_sms`
unfoldable pub settle_monitor_sms :
    AlertReferences → (ledger_id delivery_id : ℕ) → (sent_now : Bool) → AlertRows → AlertRows
settle_monitor_sms names ledger_id delivery_id sent_now r =
    settle_found names ledger_id sent_now (find_by (λ x. x.id == delivery_id) r.deliveries) r

-- What may happen to the alerts of a user, one transaction after the other.
pub data AlertStep : Type 0 where
  reserve_step : Alert → AlertStep
  settle_step : (ledger_id delivery_id : ℕ) → (sent_now : Bool) → AlertStep

abbrev pub run_alerts : AlertReferences → (cap : ℕ) → List AlertStep → AlertRows → AlertRows
run_alerts names cap [] r = r
run_alerts names cap (reserve_step a ∷ steps) r =
    run_alerts names cap steps (reserve_monitor_sms names cap a r).1
run_alerts names cap (settle_step ledger_id delivery_id sent_now ∷ steps) r =
    run_alerts names cap steps (settle_monitor_sms names ledger_id delivery_id sent_now r)
