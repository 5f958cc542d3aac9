-- ===== src/Jobs/Ending.antt =====
-- `_finish_job` and `_fail_job` of backend/src/rendercart/jobs/tasks.py: the whole handlers, with
-- the credits, the quotas, the retention and the rows that they write.
use text.Mathlib.Text.{◌==◌ as str_eq}
use render_cart.Prelude.{
  ℕ, ◌+◌, ◌*◌, String, Option, none, some, List, [], ◌∷◌, ◌++◌, if◌then◌else◌, ◌==◌, ltb,
}
use render_cart.Access.{Level, below}
use render_cart.Quota.{Redis, release_key, release_amount}
use render_cart.Credits.{Wallet}
use render_cart.Credits.Settle.{finish_credits, release_credits}
use render_cart.Jobs.{Job, succeeded, failed, Artifact, Desk, AuditRow}

-- The retention times of the settings, in minutes.
pub record Retention : Type 0 where
  pub guest : ℕ
  pub free : ℕ
  pub pro : ℕ

-- How long the rows of an ended job are kept. The level is that of the job's user, and FREE if
-- the user is gone.
abbrev pub retention_minutes : Retention → Level → Option ℕ → Option String → ℕ
retention_minutes r level user (some guest) = r.guest
retention_minutes r level (some user) none = if below level Level.day_pass then r.free else r.pro
retention_minutes r level none none = r.guest

-- What ends a job besides its rows: the clock, the id of the new ledger row, the user's level.
pub record Ending : Type 0 where
  pub now : ℕ
  pub ledger_id : ℕ
  pub level : Level
  pub retention : Retention

-- `datetime.now(UTC).replace(microsecond=0) + timedelta(minutes=...)`
abbrev pub expiry : Ending → Job → ℕ
expiry e job = e.now + 60 * retention_minutes e.retention e.level job.user_id job.guest_id

-- The audit event of a result names its action; an empty one is none.
pub record AuditEvent : Type 0 where
  pub action : Option String

abbrev pub action_of : AuditEvent → String
action_of e = elim e.action [ none ↦ "job.completed" | some a ↦ a ]

abbrev pub audit_rows : ℕ → Option AuditEvent → List AuditRow
audit_rows job none = []
audit_rows job (some e) = (action_of e, job) ∷ []

abbrev pub when_user : Option ℕ → (Wallet → Wallet) → Wallet → Wallet
when_user none f w = w
when_user (some u) f w = f w

module _ (redis : Redis) (e : Ending) where
  -- `_finish_job`
  unfoldable pub finish_job : Artifact → Artifact → Option AuditEvent → Desk redis → Desk redis
  finish_job output locked event d = record d {
    wallet =
        when_user d.job.user_id (finish_credits e.ledger_id d.job.id d.job.charged_credits)
          d.wallet;
    job = record d.job {
      output = output;
      locked_output = locked;
      state = succeeded;
      progress = 100;
      finished_at = some e.now;
      expires_at = expiry e d.job;
    };
    audit_log = d.audit_log ++ audit_rows d.job.id event;
  }

  -- The first document that the job was to index is deleted.
  abbrev pub drop_document : ℕ → List ℕ → List ℕ
  drop_document job [] = []
  drop_document job (j ∷ js) = if j == job then js else j ∷ drop_document job js

  -- The commit of the failure, before the quotas are given back.
  abbrev pub mark_failed : String → Desk redis → Desk redis
  mark_failed code d = record d {
    wallet =
        when_user d.job.user_id (release_credits e.ledger_id d.job.id d.job.charged_credits)
          d.wallet;
    job = record d.job {
      state = failed;
      error_code = some code;
      finished_at = some e.now;
      expires_at = expiry e d.job;
    };
    indexing_jobs =
        if str_eq d.job.tool_slug "chat-with-pdf"
        then drop_document d.job.id d.indexing_jobs
        else d.indexing_jobs;
  }

  abbrev pub give_back_words : Option String → Desk redis → Desk redis
  give_back_words none d = d
  give_back_words (some key) d =
      if ltb 0 d.job.word_quota_reserved_words
      then record d {
        store = release_amount redis key d.job.word_quota_reserved_words d.store;
        job = record d.job { word_quota_reserved_words = 0 };
      }
      else d

  abbrev pub give_back_seconds : Option String → Desk redis → Desk redis
  give_back_seconds none d = d
  give_back_seconds (some key) d =
      if ltb 0 d.job.duration_quota_reserved_seconds
      then record d {
        store = release_amount redis key d.job.duration_quota_reserved_seconds d.store;
        job = record d.job { duration_quota_reserved_seconds = 0 };
      }
      else d

  abbrev pub give_back_slot : Option String → Desk redis → Desk redis
  give_back_slot none d = d
  give_back_slot (some key) d =
      if d.job.quota_reserved then record d { store = release_key redis key d.store } else d

  abbrev pub give_back_quotas : Job → Desk redis → Desk redis
  give_back_quotas job d =
      give_back_slot job.quota_key
        (give_back_seconds job.duration_quota_key (give_back_words job.word_quota_key d))

  -- `_fail_job`
  unfoldable pub fail_job : String → Desk redis → Desk redis
  fail_job code d = give_back_quotas d.job (mark_failed code d)
