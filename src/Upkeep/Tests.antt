-- ===== src/Upkeep/Tests.antt =====
-- An outbox of two jobs, a cleanup that finds a lapsed, a stale and a waiting job, and the laws at
-- these inputs.
use render_cart.Prelude.{
  ℕ, ◌≡◌, refl, true, false, none, some, String, Option, List, [], ◌∷◌, ◌++◌, ◌==◌, All, arith,
}
use render_cart.Access.{Level}
use render_cart.Quota.Memory.{memory}
use render_cart.Registry.{ToolManifest, Category, Runtime, Queue, JobTier}
use render_cart.Batch.{execution_timeout}
use render_cart.Schedules.{scheduled_job}
use render_cart.Billing.{Call}
use render_cart.Billing.Checkout.{enqueue}
use render_cart.Jobs.{Job, JobState}
use render_cart.Jobs.Ending.{fail_job}
use render_cart.Upkeep.{Rows, Upkeep, no_wallet}
use render_cart.Upkeep.Cleaning.{is_stale, is_abandoned, is_expired, fail_stale, cleanup_expired}
use render_cart.Upkeep.Sending.{dispatch_paid_jobs}
use render_cart.Upkeep.Cleaned.{Clean, cleanup_expired-Clean}
use render_cart.Upkeep.Pending.{pending_count}
use render_cart.Upkeep.Rounds.{ready, cleared, handed}
use render_cart.Upkeep.Cleared.{dispatch_runs, dispatch_runs-clear}
use render_cart.Upkeep.SentOnce.{sent_count, marked_count, dispatch_paid_jobs-sent}
use render_cart.Upkeep.Stale.{fail_stale-paid}

abbrev rotate : ToolManifest
rotate = record {
  slug = "rotate-pdf";
  category = Category.pdf;
  min_level = Level.guest;
  restricted = false;
  hidden = false;
  batchable = true;
  batch_max_files = 20;
  runtime = Runtime.cpu;
  queue = some Queue.cpu_default;
  inputs = none;
  limits = [];
  credit_cost = none;
  credit_cost_per_10_pages = 0;
  credit_cost_per_page = 0;
  credit_cost_per_100_mb = 0;
  credit_cost_per_minute = 0;
  credit_cost_per_10_minutes = 0;
  credit_cost_per_10000_words = 0;
  credit_cost_per_1000_words = 0;
  credit_cost_per_1000_chars = 0;
  job_tier = some JobTier.small;
  preview_then_pay = false;
  timeout_s = 300;
  has_runner = true;
}

abbrev registry : String → Option ToolManifest
registry slug = some rotate

abbrev run : Upkeep
run = record {
  now = 10000;
  registry = registry;
  ending = λ j. record {
    now = 10000;
    ledger_id = 40;
    level = Level.free;
    retention = record { guest = 60; free = 60; pro = 1440 };
  };
  turn_id = λ j. none;
}

abbrev job : (id created : ℕ) → Job
job id created = scheduled_job id 7 created "rotate-pdf" 0

abbrev waiting : (id created : ℕ) → Job
waiting id created = record (job id created) {
  state = JobState.awaiting_payment;
  expires_at = 9000;
}

abbrev rows : Rows memory
rows = record {
  wallets = λ u. no_wallet;
  store = λ k. none;
  audit_log = [];
  indexing_jobs = [];
  audit_reports = [];
  purchases = [];
  dispatches =
      record { job_id = 1; dispatched_at = some 50 }
      ∷ record { job_id = 2; dispatched_at = none }
      ∷ record { job_id = 5; dispatched_at = none }
      ∷ record { job_id = 3; dispatched_at = none }
      ∷ [];
  documents = [];
  turns = [];
  uploads = [];
  sent = 1 ∷ [];
  deleted_objects = [];
}

-- Job 2 is young, job 3 stale, and job 4 was not paid.
abbrev jobs : List Job
jobs = job 2 9900 ∷ job 3 100 ∷ waiting 4 100 ∷ []

abbrev states : List Job → List JobState
states [] = []
states (j ∷ js) = j.state ∷ states js

cleanup-states :
    states (cleanup_expired memory run jobs rows).0 ≡ JobState.queued ∷ JobState.failed ∷ []
unfolding cleanup_expired is_stale is_abandoned is_expired execution_timeout fail_job
cleanup-states = refl

cleanup_expired-Clean_example : All (Clean run) (cleanup_expired memory run jobs rows).0
cleanup_expired-Clean_example = cleanup_expired-Clean memory run jobs rows

dispatch-two : (dispatch_paid_jobs memory run (λ i. true) jobs rows).2 ≡ 2
unfolding dispatch_paid_jobs
dispatch-two = refl

abbrev cleared_rows : Rows memory
cleared_rows = (dispatch_runs memory run 1 (jobs, rows)).1

-- Job 5 is not there: its row is deleted, and the other two are sent.
dispatch_runs-sent : cleared_rows.sent ≡ 1 ∷ 2 ∷ 3 ∷ []
unfolding dispatch_paid_jobs
dispatch_runs-sent = refl

dispatch_runs-clear_example :
    (cleared_rows.dispatches ≡ cleared run (ready run jobs) rows.dispatches)
    × (cleared_rows.sent ≡ rows.sent ++ handed (ready run jobs) rows.dispatches)
    × (pending_count cleared_rows.dispatches ≡ 0)
dispatch_runs-clear_example = dispatch_runs-clear memory run 1 jobs rows (omega arith)

dispatch_paid_jobs-sent_example :
    let (js', r', count) = dispatch_paid_jobs memory run (λ i. i == 2) jobs rows in
    sent_count 2 r'.sent ≡ marked_count 2 r'.dispatches
dispatch_paid_jobs-sent_example = dispatch_paid_jobs-sent memory run (λ i. i == 2) 2 jobs rows refl

abbrev call : Call
call = record { now = 9990; user_id = 7; ledger_id = 41; lot_id = 42 }

fail_stale-paid_example :
    (x : Job) × ((fail_stale memory run (enqueue call (waiting 5 9000) ∷ []) rows).0 ≡ x ∷ [])
    × (x.state ≡ JobState.failed)
unfolding execution_timeout
fail_stale-paid_example =
    fail_stale-paid run call (waiting 5 9000) rotate refl memory rows (omega arith)
