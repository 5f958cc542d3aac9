-- ===== src/Jobs/Execute/Running.antt =====
-- `execute_tool` of backend/src/rendercart/jobs/tasks.py, step by step.
use text.Mathlib.Text.{◌==◌ as str_eq}
use render_cart.Prelude.{
  ℕ, Bool, true, false, not, ◌&&◌, ◌||◌, Option, none, some, List, ◌∷◌, if◌then◌else◌, ◌==◌,
  is_some, ltb, sum_by, length,
}
use render_cart.Access.{Level, below}
use render_cart.Quota.{Redis}
use render_cart.Registry.{ToolManifest}
use render_cart.Registry.Prices.{Measures, dynamic_cost, has_dynamic_price}
use render_cart.Jobs.{
  JobOptions, JobState, queued, running, Desk, Attempt, Outcome, returns, raises, ◌>>=◌, ◌>>◌, pure,
  raise_if, KeyNames, reserve_duration_quota, reserve_word_quota,
}
use render_cart.Jobs.Ending.{Ending, finish_job, fail_job}
use render_cart.Jobs.Execute.{
  Run, ToolOutput, Upload, above, above_zero, charge_job, check_result, failure_code,
  prepare_inputs, receive_files, uploads_of,
}

-- The time and the fresh ids of a run.
pub record RunIds : Type 0 where
  pub hold_id : ℕ
  pub hold_now : ℕ
  pub started : ℕ

module _ (redis : Redis) (names : KeyNames) (ids : RunIds) (tool : ToolManifest) (run : Run) where
  abbrev pub when_limit : Option ℕ → (ℕ → Attempt redis (Unit {0})) → Attempt redis (Unit {0})
  when_limit none f d = (returns tt, d)
  when_limit (some n) f d = f n d

  -- The media are probed, and the texts read, only if a price or a limit needs it.
  abbrev pub total_duration : JobOptions → ℕ
  total_duration o =
      if ltb 0 tool.credit_cost_per_minute
        || (ltb 0 tool.credit_cost_per_10_minutes || above_zero o.max_minutes_per_month)
      then sum_by (λ n. n) run.durations
      else 0

  abbrev pub character_count : JobOptions → ℕ
  character_count o =
      if ltb 0 tool.credit_cost_per_1000_chars || is_some o.max_characters
      then run.character_count
      else 0

  abbrev pub measures : JobOptions → (total words pages : ℕ) → Measures
  measures o total words pages = record {
    pages_of_inputs = run.pages_of_inputs;
    page_count = pages;
    total_bytes = total;
    total_duration = total_duration o;
    word_count = words;
    character_count = character_count o;
  }

  abbrev pub bill : Bool → ℕ → Attempt redis (Unit {0})
  bill false cost d = (returns tt, d)
  bill true cost d = charge_job ids.hold_id ids.hold_now cost d

  -- The limits on the text and on the minutes, and the price.
  abbrev pub limit_text : JobOptions → (total : ℕ) → ℕ × ℕ → Attempt redis ℕ
  limit_text o total counts = do
    raise_if (above o.max_characters (character_count o)) "text_character_limit_exceeded"
    when_limit o.max_minutes_per_month (reserve_duration_quota redis names (total_duration o))
    pure (dynamic_cost tool (measures o total counts.0 counts.1))

  abbrev pub limit_words : JobOptions → (total : ℕ) → ℕ × ℕ → Attempt redis ℕ
  limit_words o total counts = do
    when_limit o.word_count_per_day (reserve_word_quota redis names counts.0)
    limit_text o total counts

  -- The `try` block up to the price.
  unfoldable pub admit_inputs : JobOptions → List Upload → Attempt redis ℕ
  admit_inputs o uploads = do
    total ← receive_files run 0 0 uploads
    counts ← prepare_inputs run.preparation
    limit_words o total counts

  -- The `try` block up to the checked result.
  unfoldable pub process_job : JobOptions → List Upload → Attempt redis ToolOutput
  process_job o uploads = do
    cost ← admit_inputs o uploads
    bill (o.bill_credits && has_dynamic_price tool) cost
    check_result run.progress run.result

  -- A website audit of a PRO user is stored with its report.
  abbrev pub store_report : Ending → ToolOutput → Desk redis → Desk redis
  store_report e o d =
      if (str_eq tool.slug "website-audit" && is_some d.job.user_id)
        && (not (below e.level Level.pro) && o.has_report)
      then record d { audit_reports = d.job.id ∷ d.audit_reports }
      else d

  abbrev pub end_job : Ending → Outcome ToolOutput × Desk redis → Desk redis
  end_job e (returns o, d) =
      finish_job redis e o.artifact o.locked o.audit_event (store_report e o d)
  end_job e (raises message, d) = fail_job redis e (failure_code message) d

  abbrev pub start_job : Desk redis → Desk redis
  start_job d = record d {
    job = record d.job { state = running; started_at = some ids.started; progress = 5 };
  }

  abbrev pub run_job : Ending → List Upload → Desk redis → Desk redis
  run_job e uploads d =
      if length uploads == length d.job.input_upload_ids
      then end_job e (process_job d.job.options uploads d)
      else fail_job redis e "upload_missing" d

abbrev pub is_queued : JobState → Bool
is_queued queued = true
is_queued _ = false

module _ (redis : Redis) (names : KeyNames) (ids : RunIds) (run : Run) where
  abbrev pub run_tool : Ending → List Upload → Option ToolManifest → Desk redis → Desk redis
  run_tool e table none d = fail_job redis e "tool_unavailable" d
  run_tool e table (some tool) d =
      if tool.has_runner
      then run_job redis names ids tool run e (uploads_of d.job.input_upload_ids table)
          (start_job redis names ids tool run d)
      else fail_job redis e "tool_unavailable" d

  -- `execute_tool`, on the row of the job, with the manifest that the registry has for its slug.
  unfoldable pub execute_tool : Ending → Option ToolManifest → List Upload → Desk redis → Desk redis
  execute_tool e tool table d = if is_queued d.job.state then run_tool e table tool d else d
