-- ===== src/Lib.antt =====
-- RenderCart, a freemium platform of document and media tools: a verification library for the
-- backend (backend/src/rendercart). It models the parts that decide who may run a job, what the
-- job costs, and what becomes of the money, the quotas and the job; and the periodic work that is
-- built on them: recurring invoices, website audits, monitors, cleanup and the AI gateway.
--
-- How the parts interact. A request computes the caller's access level from the staff role, the
-- subscriptions and the day passes (Access). The registry says who may use a tool and what it
-- costs (Registry). `create_job` checks the request against both (Creation); under a free plan the
-- job takes a slot of a quota, a counter in Redis that is shared by all the workers and given back
-- when the job fails (Quota); under a paid plan it holds credits: the cost is spread over the lots
-- of the user's account, the first to expire first, and is spent when the job succeeds or released
-- when it fails (Credits). A question about a document is a job too, with a turn that ends with it
-- (Questions). A worker takes a queued job, reserves what is known only then, runs the tool, and
-- ends the job (Jobs, Batch). Stripe's events pay for passes, jobs and credits, and take them back
-- (Billing); the job of a purchase goes into an outbox, and the periodic upkeep hands it to the
-- broker, fails stale jobs and deletes expired rows (Upkeep). The scheduler creates invoices and
-- audits as jobs, audits with a hold of the same credits (Schedules), checks monitors and domains
-- and sends their alerts, an SMS with a credit of the wallet (Monitors, Alerts, Domains). The
-- tools of language call the providers through one gateway with a budget and a breaker (Gateway).
-- Users come in by a password, a link or a session, with a second factor for the staff (Auth).
--
-- Files.
--   Prelude, Prelude/*: names of the libraries, Boolean tests, lists and integers.
--   Access, Access/*: core/access.py (`effective_level`) and billing/access.py
--   (`subject_for_user`, `user_level`). Rows are lists, and the two queries are a filter and a
--   first greatest row.
--   Quota, Quota/*: jobs/quota.py and core/redis.py. The Lua scripts are functions over a record
--   `Redis` of the commands that they call, with the documented effect of each on a key's value;
--   Quota/Memory is such a Redis. The expiry of keys is not modelled.
--   Credits: the tables of jobs/models.py for one user. Credits/Reserve: the holds of
--   `create_job`, `create_chat_question` (jobs/router.py) and `_reserve_dynamic_credits`
--   (jobs/tasks.py).
--   Credits/Settle: `_settle_credit_reservations` and the credit blocks of `_finish_job` and
--   `_fail_job`. Credits/Grant: `_grant_credits` and the credit block of `_process_refund`
--   (billing/router.py), `expire_credits`, and the grants of admin/router.py and cli.py.
--   Credits/Allocation and Credits/Sums are about the loops and the sums, Credits/Books and its
--   children about the invariant that the books are sound, Credits/Lifecycle about a job from hold
--   to settlement, Credits/Ledger and its children about the ledger over any sequence of
--   operations.
--   Registry, Registry/*: registry/models.py (manifests, their validation and prices),
--   registry/loader.py, `credits_for_inputs` of jobs/batch.py, and `_tool_access` of
--   jobs/router.py.
--   Creation, Creation/Guards: the guards of `create_job` (jobs/router.py) in their order.
--   Creation/Place: the rest of `create_job`: the slot, the options, the cost, the hold, the row,
--   the message to the broker and what is undone when one of them fails. Creation/Slots and
--   Creation/Outcome are about it.
--   Creation/Uploads: `create_upload`.
--   Questions, Questions/Asking: `create_chat_question` and `delete_chat_document` of
--   jobs/router.py; Questions/Answer: `answer_chat_question` of jobs/tasks.py. Questions/Asked and
--   Questions/Answered are about them, and Credits/Single about their credit.
--   Jobs: the `Job` row, and `Desk`, all that the handler of one job reads and writes. A handler
--   is an `Attempt`, a function from a desk to a result or an exception and the desk: what was
--   committed before the exception stays. Jobs/Ending: `_finish_job` and `_fail_job`.
--   Jobs/Execute, Jobs/Execute/Running: `execute_tool` of jobs/tasks.py; what storage, the file
--   checks, the preparation and the tool return or raise is a record `Run`, over which the
--   theorems quantify.
--   Jobs/Steps is about chains of steps, Jobs/Settled about the credits of a job, Jobs/States
--   about the state of a failed one, Jobs/Counters and Jobs/Refunds about its quotas.
--   Billing: the rows of billing/models.py and what a payment event changes. Billing/Checkout:
--   `_process_checkout`; Billing/Refunding: `_process_refund`; Billing/Webhook:
--   `_upsert_subscription`, `_process_invoice_paid`, `_process_event` and `stripe_webhook` of
--   billing/router.py. Each user has a wallet. Billing/Sound and its children are about the books
--   of the wallets, Billing/Once about the deliveries of one event, Billing/Paid about the
--   sessions of one purchase.
--   Batch, Batch/*: jobs/batch.py. The runs of the tool are a function from a group to its
--   outcome. Batch/Packing is about the loop over the groups, Batch/Archive about the archive.
--   Upkeep, Upkeep/Cleaning: `cleanup_expired` of jobs/tasks.py, query by query. Upkeep/Sending:
--   `dispatch_paid_jobs`; whether the broker takes a job is a function of the job. Upkeep/Cleaned
--   and Upkeep/Stale are about the first, Upkeep/Pending, Upkeep/Rounds, Upkeep/Cleared and
--   Upkeep/SentOnce about the second.
--   Calendar: dates with a time of day, as the schedules compare and advance them; days_in_month
--   is that of the `calendar` module. Schedules: the rows and `next_invoice_run` of
--   business/invoice.py and business/numbering.py. Schedules/Invoices: its handlers and
--   `generate_recurring_invoices` (jobs/tasks.py). Schedules/Audits: business/website_audits.py
--   and `generate_website_audit_schedules`. Schedules/Due is about the dates, Schedules/Created
--   about the invoices of a run, Schedules/Held about the credits of the audits.
--   Gateway: ai/gateway.py, the breaker, the recorder with its budgets, `chat` and `embed`; what a
--   provider answers is given with the request. Gateway/Budget and Gateway/Spending are about the
--   budgets, Gateway/Tripping about the breaker; Gateway/Embedding is `embed`.
--   Alerts, Alerts/*: `_reserve_monitor_sms` and `_settle_monitor_sms` of jobs/tasks.py, the SMS
--   of an uptime monitor, which hold a credit of the wallet. Alerts/Cap is about the monthly cap.
--   Monitors: `check_uptime_monitor`, `_deliver_monitor_alert` and the scheduler of jobs/tasks.py;
--   Monitors/Handlers: business/monitors.py. Monitors/Phases and Monitors/Repeats are about the
--   outages that a sequence of checks reports.
--   Domains: `check_domain_expiry_alerts` and its worker in jobs/tasks.py; Domains/Handlers:
--   business/domain_alerts.py. Domains/Once is about the repeats of a reminder, Domains/Distinct
--   about the alerts that a user has.
--   Auth: the rows of auth/models.py and the steps of auth/service.py and auth/security.py on
--   them, with core/ownership.py; hashes and one-time codes are a record `Crypto`. Auth/SignIn:
--   the handlers of auth/router.py. Auth/Spent and Auth/Tokens are about the links, Auth/Staff
--   about the guard of admin/router.py.
--
-- State and errors. A database transaction is a function from the rows to the rows or to an error;
-- an error leaves the rows alone, as the rollback does. Row locks make each transaction run alone;
-- the handlers of Auth take no locks, and are modelled one after the other too. Identifiers
-- (UUIDs) and times are natural numbers, and amounts are natural numbers where the source keeps
-- them from falling below zero by `max(0, ...)` or by a test; the account balance, which is
-- debited without a test, is an integer. Loops run over finite lists but for three, which run on
-- fuel: the loop that catches up a schedule has the time of now plus one, and each turn moves the
-- schedule by at least one unit, so it never runs out; the loop that fills a mock vector has its
-- dimension, and each turn adds a component; the digits of a page number have the number, and each
-- turn drops a digit.
--
-- Not modelled: the tools themselves (PDF, image, media and language processing), which are
-- parameters where a handler runs them, among them a vendored copy of the Kokoro speech model; the
-- OAuth callback, the handlers that open a checkout, the limits on sign-in attempts and API keys;
-- short links, the vault and webhook bins; saved contacts and items of invoices; HTTP plumbing,
-- templates and the web application.
--
-- Left out of what is modelled: a malformed purchase id, and a session or payment that two
-- purchases name, either of which raises in the handler of a webhook; a reference of a grant or a
-- refund is looked for in the ledger of the user, where the source looks in all ledgers, since a
-- reference names a payment of one user; exceptions of the media probes and of reading a text
-- before a tool runs, and of writing the archive of a batch, with the text of its labels beyond
-- their number; exceptions of the object storage in the cleanup, and other workers at the same
-- time as a periodic task, whose locked rows it skips; the month of an SMS is that of its
-- reservation.
pub mod Prelude
pub mod Access
pub mod Quota
pub mod Credits
pub mod Registry
pub mod Jobs
pub mod Billing
pub mod Batch
pub mod Alerts
pub mod Calendar
pub mod Schedules
pub mod Gateway
pub mod Upkeep
pub mod Monitors
pub mod Domains
pub mod Creation
pub mod Auth
pub mod Questions
