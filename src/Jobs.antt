-- ===== src/Jobs.antt =====
-- Jobs: the `Job` row of backend/src/rendercart/jobs/models.py, what a handler of one job works on,
-- and the reservations of quotas that a running job makes (jobs/tasks.py).
pub mod Ending
pub mod Execute
pub mod Steps
pub mod Settled
pub mod States
pub mod Counters
pub mod Refunds
mod Tests
use render_cart.Prelude.{
  ℕ, ◌+◌, ◌-◌, ◌*◌, ◌/◌, max, String, Bool, true, false, not, ◌&&◌, ◌||◌, Option, none, some, List,
  [], ◌∷◌, ◌++◌, if◌then◌else◌, ◌==◌, leb,
}
use render_cart.Quota.{Redis, reserve_amount}
use render_cart.Credits.{Wallet}
use render_cart.Registry.{JobTier}

pub data JobState : Type 0 where
  awaiting_payment queued running succeeded failed cancelled : JobState

-- The three columns of a result, or of a locked one.
pub record Artifact : Type 0 where
  pub key : Option String
  pub filename : Option String
  pub content_type : Option String

abbrev pub no_artifact : Artifact
no_artifact = record { key = none; filename = none; content_type = none }

-- The entries of `Job.options` that the job system itself reads.
pub record JobOptions : Type 0 where
  pub bill_credits : Bool
  pub batch_mode : Bool
  pub max_minutes_per_month : Option ℕ
  pub max_characters : Option ℕ
  pub max_words : Option ℕ
  pub max_pages : Option ℕ
  pub word_count_per_day : Option ℕ

pub record Job : Type 0 where
  pub id : ℕ
  pub user_id : Option ℕ
  pub guest_id : Option String
  pub tool_slug : String
  pub payment_tier : Option JobTier
  pub charged_credits : ℕ
  pub state : JobState
  pub options : JobOptions
  pub input_upload_ids : List ℕ
  pub output : Artifact
  pub locked_output : Artifact
  pub progress : ℕ
  pub quota_reserved : Bool
  pub quota_key : Option String
  pub duration_quota_key : Option String
  pub duration_quota_reserved_seconds : ℕ
  pub word_quota_key : Option String
  pub word_quota_reserved_words : ℕ
  pub error_code : Option String
  pub created_at : ℕ
  pub started_at : Option ℕ
  pub finished_at : Option ℕ
  pub expires_at : ℕ

-- A row of the audit log: the action and the id of its target.
abbrev pub AuditRow : Type 0
AuditRow = String × ℕ

-- What the handlers of one job read and write: its row, the wallet of its user, the counters, the
-- audit log, the jobs that index a chat document, and the jobs with a stored website audit.
pub record Desk (redis : Redis) : Type 0 where
  pub job : Job
  pub wallet : Wallet
  pub store : redis.Store
  pub audit_log : List AuditRow
  pub indexing_jobs : List ℕ
  pub audit_reports : List ℕ

-- A step of a handler: what was committed before an exception stays.
pub data Outcome {ℓ} (A : Type ℓ) : Type ℓ where
  returns : A → Outcome A
  raises : String → Outcome A

abbrev pub Attempt : Redis → Type 0 → Type 0
Attempt redis A = Desk redis → Outcome A × Desk redis

module _ {redis : Redis} where
  abbrev pub continue :
      {A B : Type 0} → (A → Attempt redis B) → Outcome A × Desk redis → Outcome B × Desk redis
  continue f (returns a, d) = f a d
  continue f (raises e, d) = (raises e, d)

  infixl 5 ◌>>=◌ ◌>>◌
  abbrev pub ◌>>=◌ : {A B : Type 0} → Attempt redis A → (A → Attempt redis B) → Attempt redis B
  ◌>>=◌ m f d = continue f (m d)

  abbrev pub ◌>>◌ : {A B : Type 0} → Attempt redis A → Attempt redis B → Attempt redis B
  m >> k = m >>= λ _. k

  abbrev pub pure : {A : Type 0} → A → Attempt redis A
  pure a d = (returns a, d)

  abbrev pub raise_if : Bool → String → Attempt redis (Unit {0})
  raise_if c e d = (if c then raises e else returns tt, d)

  abbrev pub update_job : (Job → Job) → Attempt redis (Unit {0})
  update_job f d = (returns tt, record d { job = f d.job })

-- The formatted keys of the counters of a job, for the time of the call, with their lifetimes.
pub record KeyNames : Type 0 where
  pub duration_key : String
  pub duration_ttl : ℕ
  pub word_key : String

-- `max(1, int(duration_seconds + 0.999999))`, of a duration in microseconds.
abbrev pub whole_seconds : ℕ → ℕ
whole_seconds us = max 1 ((us + 999999) / 1000000)

module _ (redis : Redis) (names : KeyNames) where
  -- `_reserve_duration_quota`
  unfoldable pub reserve_duration_quota : (duration maximum_minutes : ℕ) → Attempt redis (Unit {0})
  reserve_duration_quota duration maximum d =
      let seconds = whole_seconds duration in
      let (granted, store) =
        reserve_amount redis names.duration_key seconds (maximum * 60) names.duration_ttl d.store in
      if leb maximum 0
      then (raises "monthly_free_limit_reached", d)
      else if granted
      then (
        returns tt,
        record d {
          store = store;
          job = record d.job {
            duration_quota_key = some names.duration_key;
            duration_quota_reserved_seconds = seconds;
          };
        },
      )
      else (raises "monthly_free_limit_reached", record d { store = store })

  -- `_reserve_word_quota`
  unfoldable pub reserve_word_quota : (word_count maximum_words : ℕ) → Attempt redis (Unit {0})
  reserve_word_quota words maximum d =
      let (granted, store) = reserve_amount redis names.word_key words maximum 172800 d.store in
      if leb words 0 || leb maximum 0
      then (raises "daily_word_limit_reached", d)
      else if granted
      then (
        returns tt,
        record d {
          store = store;
          job = record d.job {
            word_quota_key = some names.word_key;
            word_quota_reserved_words = words;
          };
        },
      )
      else (raises "daily_word_limit_reached", record d { store = store })
