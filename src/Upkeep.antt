-- ===== src/Upkeep.antt =====
-- The periodic tasks of backend/src/rendercart/jobs/tasks.py that look after all jobs:
-- `cleanup_expired` in Upkeep/Cleaning and `dispatch_paid_jobs` in Upkeep/Sending. A task is one
-- pass over the rows of its query, since what it does to one row changes no other row of the query.
pub mod Cleaning
pub mod Sending
pub mod Cleaned
pub mod Pending
pub mod Rounds
pub mod Cleared
pub mod Stale
pub mod SentOnce
mod Tests
use render_cart.Prelude.{ℕ, String, Option, none, some, List, [], if◌then◌else◌, ◌==◌}
use render_cart.Quota.{Redis}
use render_cart.Credits.{Wallet}
use render_cart.Registry.{ToolManifest}
use render_cart.Billing.{Purchase}
use render_cart.Jobs.{Job, Desk, AuditRow}
use render_cart.Jobs.Ending.{Ending, fail_job}

-- `ChatDocument` and `ChatTurn`, the columns that the task reads or writes.
pub record ChatDocument : Type 0 where
  pub id : ℕ
  pub expires_at : Option ℕ

pub data TurnStatus : Type 0 where
  queued running succeeded failed : TurnStatus

pub record ChatTurn : Type 0 where
  pub id : ℕ
  pub status : TurnStatus
  pub error_code : Option String
  pub completed_at : Option ℕ

pub record StoredUpload : Type 0 where
  pub id : ℕ
  pub object_key : String
  pub expires_at : ℕ

-- `JobDispatch`, in the order of creation.
pub record Dispatch : Type 0 where
  pub job_id : ℕ
  pub dispatched_at : Option ℕ

-- The rows besides those of the jobs: each user has a wallet; `sent` are the jobs that were handed
-- to the broker, and `deleted_objects` what was deleted from the object storage.
pub record Rows (redis : Redis) : Type 0 where
  pub wallets : ℕ → Wallet
  pub store : redis.Store
  pub audit_log : List AuditRow
  pub indexing_jobs : List ℕ
  pub audit_reports : List ℕ
  pub purchases : List Purchase
  pub dispatches : List Dispatch
  pub documents : List ChatDocument
  pub turns : List ChatTurn
  pub uploads : List StoredUpload
  pub sent : List ℕ
  pub deleted_objects : List String

-- What a task reads besides the rows: the clock, the registry, the time, level and ledger id of a
-- job that ends, and the `turn_id` in the options of a chat job.
pub record Upkeep : Type 0 where
  pub now : ℕ
  pub registry : String → Option ToolManifest
  pub ending : Job → Ending
  pub turn_id : Job → Option ℕ

abbrev pub no_wallet : Wallet
no_wallet = record { account = none; lots = []; reservations = []; ledger = [] }

abbrev pub wallet_of : Option ℕ → (ℕ → Wallet) → Wallet
wallet_of none wallets = no_wallet
wallet_of (some u) wallets = wallets u

abbrev pub set_wallet : Option ℕ → Wallet → (ℕ → Wallet) → ℕ → Wallet
set_wallet none w wallets = wallets
set_wallet (some user) w wallets = λ u. if u == user then w else wallets u

module _ (redis : Redis) where
  abbrev pub desk_of : Job → Rows redis → Desk redis
  desk_of j r = record {
    job = j;
    wallet = wallet_of j.user_id r.wallets;
    store = r.store;
    audit_log = r.audit_log;
    indexing_jobs = r.indexing_jobs;
    audit_reports = r.audit_reports;
  }

  abbrev pub put_back : Option ℕ → Desk redis → Rows redis → Rows redis
  put_back user d r = record r {
    wallets = set_wallet user d.wallet r.wallets;
    store = d.store;
    audit_log = d.audit_log;
    indexing_jobs = d.indexing_jobs;
    audit_reports = d.audit_reports;
  }

  -- `_fail_job` on one of the rows.
  unfoldable pub fail_row : Upkeep → (code : String) → Job → Rows redis → Job × Rows redis
  fail_row run code j r =
      let d = fail_job redis (run.ending j) code (desk_of j r) in (d.job, put_back j.user_id d r)
