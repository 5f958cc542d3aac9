-- ===== src/Creation/Place.antt =====
-- `create_job` of backend/src/rendercart/jobs/router.py after its guards: the slot of a quota, the
-- credits, the row of the job and the message to the broker; and the whole handler.
use text.Mathlib.Text.{◌==◌ as str_eq}
use render_cart.Prelude.{
  ℕ, ◌+◌, ◌*◌, max, String, Bool, not, ◌&&◌, ◌||◌, Option, none, some, List, [], ◌∷◌, ◌++◌,
  if◌then◌else◌, ◌==◌, ltb, is_some, length, any_of,
}
use render_cart.Access.{Level, below}
use render_cart.Quota.{Redis, reserve_counter, release_key}
use render_cart.Credits.{Wallet, Result, ok, err, CreditError}
use render_cart.Credits.Reserve.{hold_credits}
use render_cart.Credits.Settle.{release_credits}
use render_cart.Registry.{ToolManifest, Limit}
use render_cart.Jobs.{Job, JobState, JobOptions, no_artifact}
use render_cart.Creation.{
  Upload, Rows, Caller, JobRequest, Creation, Refusal, tool_limit, guest_gate, or_default,
}
use render_cart.Creation.Guards.{
  Chosen, chosen, denied, choose_tool, validate, limit_field, uploads_of,
}

pub data Reply : Type 0 where
  accepted : JobState → Reply
  refused : Refusal → Reply

-- What becomes of the quota: no limit applies, a slot of a key is taken, or it is refused.
pub data Slot : Type 0 where
  no_slot : Slot
  slot_of : (key : String) → Slot
  no_slot_left : Refusal → Slot

abbrev pub unpaid : JobRequest → Bool
unpaid q = not (is_some q.paid_tier)

-- The entries of the options that the job system reads. Without an options class they are the
-- caller's own.
abbrev pub overlay : Caller → JobRequest → Option Limit → JobOptions → JobOptions
overlay who q limit o =
    let free = below who.level Level.day_pass && unpaid q in
    let pages = limit_field (λ l. l.max_pages) limit in
    record o {
      max_pages = if is_some pages && q.fields "max_pages" then pages else o.max_pages;
      bill_credits =
          if q.fields "bill_credits"
          then not (below who.level Level.day_pass) && (below who.level Level.admin && unpaid q)
          else o.bill_credits;
      max_minutes_per_month =
          if q.fields "max_minutes_per_month"
          then (if free then limit_field (λ l. l.max_minutes_per_month) limit else none)
          else o.max_minutes_per_month;
      max_characters =
          if q.fields "max_characters"
          then limit_field (λ l. l.max_characters_per_job) limit
          else o.max_characters;
      max_words =
          if q.fields "max_words"
          then limit_field (λ l. l.max_words_per_job) limit
          else o.max_words;
      word_count_per_day =
          if q.fields "word_count_per_day"
          then (if free then limit_field (λ l. l.word_count_per_day) limit else none)
          else o.word_count_per_day;
    }

abbrev pub parsed_or_raw : JobRequest → Option JobOptions → JobOptions
parsed_or_raw q none = q.raw_options
parsed_or_raw q (some o) = o

unfoldable pub final_options : Caller → JobRequest → Option Limit → JobOptions
final_options who q limit =
    let o =
      if q.has_options_class
      then overlay who q limit (parsed_or_raw q q.parsed_options)
      else q.raw_options in
    record o { batch_mode = q.batch_mode }

-- The cost that is known when the job is created.
unfoldable pub creation_cost : Caller → JobRequest → ToolManifest → (uploads : ℕ) → ℕ
creation_cost who q tool uploads =
    let base =
      if is_some q.paid_tier
        || (below who.level Level.day_pass
            || (not (below who.level Level.admin) || ltb 0 tool.credit_cost_per_10_pages))
      then 0
      else or_default 0 tool.credit_cost * (if q.batch_mode then uploads else 1) in
    if (str_eq q.slug "resume-builder" && q.rewrite_with_ai)
      && (below who.level Level.admin && unpaid q)
    then base + 2
    else base

abbrev pub credit_refusal : CreditError → Refusal
credit_refusal CreditError.sign_in = (402, "Sign in to use credits")
credit_refusal CreditError.not_enough_credits = (402, "Not enough credits")
credit_refusal CreditError.not_enough_unexpired_credits = (402, "Not enough unexpired credits")
credit_refusal _ = (500, "Internal Server Error")

abbrev pub key_of : Slot → Option String
key_of (slot_of key) = some key
key_of _ = none

abbrev pub new_job :
    Creation → Caller → JobRequest → Option Limit → ToolManifest → (cost : ℕ) → Slot → Job
new_job c who q limit tool cost slot = record {
  id = c.job_id;
  user_id = who.user;
  guest_id = who.guest_id;
  tool_slug = q.slug;
  payment_tier = q.paid_tier;
  charged_credits = cost;
  state = if is_some q.paid_tier then JobState.awaiting_payment else JobState.queued;
  options = final_options who q limit;
  input_upload_ids = q.upload_ids;
  output = no_artifact;
  locked_output = no_artifact;
  progress = 0;
  quota_reserved = is_some (key_of slot);
  quota_key = key_of slot;
  duration_quota_key = none;
  duration_quota_reserved_seconds = 0;
  word_quota_key = none;
  word_quota_reserved_words = 0;
  error_code = none;
  created_at = c.now;
  started_at = none;
  finished_at = none;
  expires_at = c.now + 86400;
}

-- The uploads of a job that waits for its payment are kept a day.
abbrev pub extend_uploads : (now : ℕ) → List ℕ → List Upload → List Upload
extend_uploads now ids [] = []
extend_uploads now ids (u ∷ us) =
    (if any_of (λ i. i == u.id) ids
      then record u { expires_at = max u.expires_at (now + 86400) }
      else u)
    ∷ extend_uploads now ids us

abbrev pub queue_failed : (now : ℕ) → Job → Job
queue_failed now j = record j {
  state = JobState.failed;
  error_code = some "queue_unavailable";
  finished_at = some now;
}

module _ (redis : Redis) where
  abbrev pub take_slot :
      (key : String) → (maximum ttl : ℕ) → Refusal → redis.Store → Slot × redis.Store
  take_slot key maximum ttl refusal s =
      let (granted, s') = reserve_counter redis key maximum ttl s in
      (if granted then slot_of key else no_slot_left refusal, s')

  abbrev pub monthly_slot : Creation → Option ℕ → redis.Store → Slot × redis.Store
  monthly_slot c none s = (no_slot, s)
  monthly_slot c (some n) s =
      take_slot c.monthly_key n c.seconds_until_next_month (402, "Monthly free limit reached") s

  abbrev pub hourly_slot : Creation → Limit → Option ℕ → redis.Store → Slot × redis.Store
  hourly_slot c l none s = monthly_slot c l.count_per_month s
  hourly_slot c l (some n) s =
      take_slot c.hourly_key n 7200 (429, "Hourly fair-use limit reached") s

  abbrev pub daily_slot : Creation → Limit → Option ℕ → redis.Store → Slot × redis.Store
  daily_slot c l none s = hourly_slot c l l.fair_use_per_hour s
  daily_slot c l (some n) s = take_slot c.daily_key n 172800 (402, "Daily free limit reached") s

  abbrev pub limited_slot : Creation → Option Limit → redis.Store → Slot × redis.Store
  limited_slot c none s = (no_slot, s)
  limited_slot c (some l) s = daily_slot c l l.count_per_day s

  -- The slot of the first quota that the limit sets: of the day, the hour or the month.
  unfoldable pub reserve_slot :
      Creation → JobRequest → Option Limit → redis.Store → Slot × redis.Store
  reserve_slot c q limit s = if unpaid q then limited_slot c limit s else (no_slot, s)

  abbrev pub release_slot : Slot → redis.Store → redis.Store
  release_slot (slot_of key) s = release_key redis key s
  release_slot no_slot s = s
  release_slot (no_slot_left e) s = s

  -- The job is stored: it waits for its payment, or is sent to the broker; if that is down, the
  -- credits and the slot are given back.
  abbrev pub send_job :
      Creation → JobRequest → Slot → Job → Wallet → Rows redis → Reply × Rows redis
  send_job c q slot j w r =
      if not (unpaid q)
      then (
        accepted JobState.awaiting_payment,
        record r {
          wallet = w;
          jobs = r.jobs ++ j ∷ [];
          uploads = extend_uploads c.now q.upload_ids r.uploads;
        },
      )
      else if c.broker_works
      then (
        accepted JobState.queued,
        record r { wallet = w; jobs = r.jobs ++ j ∷ []; sent = r.sent ++ j.id ∷ [] },
      )
      else (
        refused (503, "Job queue is temporarily unavailable"),
        record r {
          wallet = release_credits c.release_id j.id j.charged_credits w;
          jobs = r.jobs ++ queue_failed c.now j ∷ [];
          store = release_slot slot r.store;
        },
      )

  -- The `try` block: an exception rolls the rows back and gives the slot back.
  abbrev pub store_job :
      Creation → JobRequest → Slot → Job → Result Wallet → Rows redis → Reply × Rows redis
  store_job c q slot j (ok w) r = send_job c q slot j w r
  store_job c q slot j (err e) r =
      (refused (credit_refusal e), record r { store = release_slot slot r.store })

  abbrev pub charge_job :
      Creation
      → Caller
      → JobRequest
      → Option Limit
      → ToolManifest
      → Slot × redis.Store
      → Rows redis
      → Reply × Rows redis
  charge_job c who q limit tool (no_slot_left e, s) r = (refused e, record r { store = s })
  charge_job c who q limit tool (slot, s) r =
      let cost = creation_cost who q tool (length (uploads_of q.upload_ids r.uploads)) in
      store_job c q slot (new_job c who q limit tool cost slot)
        (hold_credits (is_some who.user) c.job_id c.hold_id c.now cost r.wallet)
        (record r { store = s })

  unfoldable pub place_job :
      Creation → Caller → JobRequest → ToolManifest → Level → Rows redis → Reply × Rows redis
  unfolding reserve_slot
  place_job c who q tool level r =
      let limit = tool_limit c tool level in
      charge_job c who q limit tool (reserve_slot c q limit r.store) r

  abbrev pub place_valid :
      Creation
      → Caller
      → JobRequest
      → ToolManifest
      → Level
      → Option Refusal
      → Rows redis
      → Reply × Rows redis
  place_valid c who q tool level none r = place_job c who q tool level r
  place_valid c who q tool level (some e) r = (refused e, r)

  abbrev pub place_chosen :
      Creation → Caller → JobRequest → Chosen → Rows redis → Reply × Rows redis
  place_chosen c who q (denied e) r = (refused e, r)
  place_chosen c who q (chosen tool level) r =
      place_valid c who q tool level (validate c who q tool level r.uploads) r

  abbrev pub admit :
      Creation → Caller → JobRequest → Option Refusal × Rows redis → Reply × Rows redis
  admit c who q (some e, r) = (refused e, r)
  admit c who q (none, r) = place_chosen c who q (choose_tool c who q q.paid_tier) r

  -- `create_job`
  unfoldable pub create_job : Creation → Caller → JobRequest → Rows redis → Reply × Rows redis
  unfolding place_job choose_tool validate guest_gate
  create_job c who q r =
      if is_some q.paid_tier && not (is_some who.user)
      then (refused (401, "Sign in before purchasing a single job"), r)
      else admit c who q (guest_gate redis c who.user r)
