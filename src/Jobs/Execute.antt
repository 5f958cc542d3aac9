-- ===== src/Jobs/Execute.antt =====
-- The parts of `execute_tool` of backend/src/rendercart/jobs/tasks.py: its inputs, its checks and its
-- charge; Jobs/Execute/Running puts them together. What the outside gives (object storage,
-- file checks, media probes, the preparation and the run of the tool) is a record `Run`.
pub mod Running
use Prim.Native.Char.{code}
use text.Mathlib.Text.{◌==◌ as str_eq}
use render_cart.Prelude.{
  ℕ, ◌+◌, ◌*◌, min, String, Bool, true, false, not, ◌&&◌, ◌||◌, Option, none, some, List, [], ◌∷◌,
  if◌then◌else◌, ◌==◌, is_some, ltb, leb,
}
use render_cart.Quota.{Redis}
use render_cart.Credits.{Wallet, Result, ok, err, CreditError}
use render_cart.Credits.Reserve.{reserve_dynamic_credits}
use render_cart.Jobs.{
  ◌>>◌, ◌>>=◌, Artifact, Desk, Attempt, Outcome, returns, raises, pure, raise_if, update_job,
}
use render_cart.Jobs.Ending.{AuditEvent}

-- The columns of `Upload` that a run reads.
pub record Upload : Type 0 where
  pub id : ℕ
  pub size_bytes : ℕ
  pub content_type : String

-- What storage reports of an upload, the size of the downloaded file, and what `_verify_file`
-- finds wrong with it.
pub record Received : Type 0 where
  pub content_length : Option ℕ
  pub content_type : Option String
  pub local_size : ℕ
  pub verify_error : Option String

-- The files and names of a `ToolOutput`; a size of 0 is a missing or an empty file.
pub record ToolOutput : Type 0 where
  pub size : ℕ
  pub artifact : Artifact
  pub locked_size : Option ℕ
  pub locked : Artifact
  pub audit_event : Option AuditEvent
  pub has_report : Bool

pub data RunResult : Type 0 where
  tool_output : ToolOutput → RunResult
  other_value : RunResult
  run_raises : String → RunResult

pub data Preparation : Type 0 where
  unprepared : Preparation
  prepared : (word_count page_count : ℕ) → Preparation
  prepare_raises : String → Preparation

pub record Run : Type 0 where
  pub received : ℕ → Received
  pub preparation : Preparation
  pub pages_of_inputs : List ℕ
  pub durations : List ℕ
  pub character_count : ℕ
  -- The last progress that the tool reported, as it is stored in the job.
  pub progress : Option ℕ
  pub result : RunResult

-- `str(exc)` of a ValueError if it is an identifier (of ASCII); other exceptions raise
-- "processing_failed" in this model from the start.
abbrev pub is_start : ℕ → Bool
is_start c = (leb b'a' c && leb c b'z') || (leb b'A' c && leb c b'Z') || c == b'_'

abbrev pub is_part : ℕ → Bool
is_part c = is_start c || (leb b'0' c && leb c b'9')

abbrev pub all_parts : String → Bool
all_parts String.[] = true
all_parts (String.◌∷◌ c s) = is_part (code c) && all_parts s

abbrev pub is_identifier : String → Bool
is_identifier String.[] = false
is_identifier (String.◌∷◌ c s) = is_start (code c) && all_parts s

unfoldable pub failure_code : String → String
failure_code message = if is_identifier message then message else "processing_failed"

abbrev pub find_upload : ℕ → List Upload → Option Upload
find_upload i [] = none
find_upload i (u ∷ us) = if u.id == i then some u else find_upload i us

-- The rows of the job's uploads in its order; a missing one is left out.
abbrev pub uploads_of : List ℕ → List Upload → List Upload
uploads_of [] table = []
uploads_of (i ∷ is) table = elim (find_upload i table) [
  | none ↦ uploads_of is table
  | some u ↦ u ∷ uploads_of is table
]

abbrev pub same_size : Option ℕ → ℕ → Bool
same_size none n = false
same_size (some m) n = m == n

abbrev pub same_text : Option String → String → Bool
same_text none s = false
same_text (some t) s = str_eq t s

abbrev pub above : Option ℕ → ℕ → Bool
above none n = false
above (some limit) n = ltb limit n

abbrev pub credit_code : CreditError → String
credit_code CreditError.credits_require_account = "credits_require_account"
credit_code CreditError.insufficient_credits = "insufficient_credits"
credit_code _ = "processing_failed"

abbrev pub above_zero : Option ℕ → Bool
above_zero none = false
above_zero (some n) = ltb 0 n

module _ {redis : Redis} where
  abbrev pub raise_error : Option String → Attempt redis (Unit {0})
  raise_error none d = (returns tt, d)
  raise_error (some e) d = (raises e, d)

  -- The loop over the uploads; the result is `total_bytes`.
  unfoldable pub receive_files : Run → (index total : ℕ) → List Upload → Attempt redis ℕ
  receive_files run index total [] = pure total
  receive_files run index total (u ∷ us) =
      let r = run.received u.id in
      let total' = total + r.local_size in
      let rest = receive_files run (index + 1) total' us in
      do
        raise_if (not (same_size r.content_length u.size_bytes)) "upload_size_mismatch"
        raise_if (not (same_text r.content_type u.content_type)) "upload_type_mismatch"
        raise_if (ltb 2147483648 total') "file_too_large"
        raise_error r.verify_error
        update_job (λ j. record j { progress = min (20 + index * 10) 50 })
        rest

  -- `tool.prepare`, with the limits on words and pages; the result is the two counts.
  unfoldable pub prepare_inputs : Preparation → Attempt redis (ℕ × ℕ)
  prepare_inputs unprepared d = (returns (0, 0), d)
  prepare_inputs (prepare_raises e) d = (raises e, d)
  prepare_inputs (prepared words pages) d =
      if above d.job.options.max_words words
      then (raises "word_limit_exceeded", d)
      else if above d.job.options.max_pages pages
      then (raises "page_limit_exceeded", d)
      else (returns (words, pages), d)

  abbrev pub after_reserve : Desk redis → Result Wallet → ℕ → Outcome (Unit {0}) × Desk redis
  after_reserve d (ok w) charged =
      (returns tt, record d { wallet = w; job = record d.job { charged_credits = charged } })
  after_reserve d (err e) charged = (raises (credit_code e), d)

  -- `_reserve_dynamic_credits` on the desk of the job.
  unfoldable pub charge_job : (ledger_id now cost : ℕ) → Attempt redis (Unit {0})
  charge_job ledger_id now cost d =
      let (r, charged) =
        reserve_dynamic_credits (is_some d.job.user_id) d.job.id ledger_id now cost
          d.job.charged_credits d.wallet in
      after_reserve d r charged

  abbrev pub report_progress : Option ℕ → Desk redis → Desk redis
  report_progress none d = d
  report_progress (some p) d = record d { job = record d.job { progress = p } }

  abbrev pub check_output : ToolOutput → Attempt redis ToolOutput
  check_output o = do
    raise_if (o.size == 0) "empty_output"
    raise_if
        (is_some o.locked_size
          && (not (is_some o.locked.filename) || not (is_some o.locked.content_type)))
        "invalid_locked_output"
    raise_if (same_size o.locked_size 0) "empty_locked_output"
    update_job (λ j. record j { progress = 90 })
    pure o

  -- The run of the tool, and the checks of its result.
  unfoldable pub check_result : Option ℕ → RunResult → Attempt redis ToolOutput
  check_result progress (run_raises e) d = (raises e, report_progress progress d)
  check_result progress other_value d = (raises "invalid_tool_output", report_progress progress d)
  check_result progress (tool_output o) d = check_output o (report_progress progress d)
