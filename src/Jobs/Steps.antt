-- ===== src/Jobs/Steps.antt =====
-- What the steps of `execute_tool` (backend/src/rendercart/jobs/tasks.py) leave alone, and how
-- conditions on the desk of a job pass through a chain of steps.
use render_cart.Prelude.{
  ℕ, String, Bool, Option, none, some, List, [], ◌∷◌, arith, ◌&&◌, not, ◌||◌, is_some, ltb, min,
  ◌+◌, ◌*◌, ◌==◌,
}
use render_cart.Quota.{Redis, release_amount, release_key}
use render_cart.Registry.{ToolManifest}
use render_cart.Registry.Prices.{dynamic_cost}
use render_cart.Jobs.{
  Job, JobOptions, Desk, Attempt, Outcome, returns, raises, continue, ◌>>=◌, pure, raise_if,
  update_job, KeyNames, reserve_duration_quota, reserve_word_quota,
}
use render_cart.Jobs.Ending.{
  Ending, give_back_words, give_back_seconds, give_back_slot, give_back_quotas,
}
use render_cart.Jobs.Execute.{
  Upload, Run, RunResult, ToolOutput, Preparation, unprepared, prepared, prepare_raises,
  tool_output, other_value, run_raises, raise_error, receive_files, prepare_inputs, check_output,
  check_result, report_progress, above, same_size, same_text,
}
use render_cart.Jobs.Execute.Running.{
  RunIds, admit_inputs, limit_words, limit_text, measures, when_limit, character_count,
  total_duration,
}

module _ {redis : Redis} where
  -- From the condition P a step leads to Q, also where it raises.
  abbrev pub Leads :
      {A : Type 0} → (Desk redis → Type 0) → (Desk redis → Type 0) → Attempt redis A → Type 0
  Leads P Q m = (d : Desk redis) → P d → Q (m d).1

  -- The condition does not depend on the progress.
  abbrev pub Unmoved : (Desk redis → Type 0) → Type 0
  Unmoved P = (d : Desk redis) (p : ℕ) → P d → P (record d { job = record d.job { progress = p } })

  continue-Leads :
      {A B : Type 0} (R Q : Desk redis → Type 0) (f : A → Attempt redis B)
      → ((d : Desk redis) → R d → Q d)
      → ((a : A) → Leads R Q (f a))
      → (r : Outcome A × Desk redis) → R r.1
      → Q (continue f r).1
  continue-Leads R Q f weaker hf (returns a, d) h = hf a d h
  continue-Leads R Q f weaker hf (raises e, d) h = weaker d h

  pub Leads-bind :
      {A B : Type 0} (P R Q : Desk redis → Type 0) (m : Attempt redis A) (f : A → Attempt redis B)
      → Leads P R m
      → ((d : Desk redis) → R d → Q d)
      → ((a : A) → Leads R Q (f a))
      → Leads P Q (m >>= f)
  Leads-bind P R Q m f hm weaker hf d h = continue-Leads R Q f weaker hf (m d) (hm d h)

  -- A step that changes the progress of the job and nothing else.
  pub record Quiet {A : Type 0} (m : Attempt redis A) : Type 1 where
    pub keeps : (P : Desk redis → Type 0) → Unmoved P → Leads P P m

  Quiet-bind :
      {A B : Type 0} (m : Attempt redis A) (f : A → Attempt redis B)
      → Quiet m
      → ((a : A) → Quiet (f a))
      → Quiet (m >>= f)
  Quiet-bind m f hm hf = record {
    keeps = λ P u. Leads-bind P P P m f (hm.keeps P u) (λ d h. h) λ a. (hf a).keeps P u;
  }

  raise_if-Quiet : (c : Bool) (e : String) → Quiet (raise_if c e)
  raise_if-Quiet c e = record { keeps = λ P u d h. h }

  update_progress-Quiet : (p : ℕ) → Quiet (update_job λ j. record j { progress = p })
  update_progress-Quiet p = record { keeps = λ P u d h. u d p h }

  pure-Quiet : {A : Type 0} (a : A) → Quiet (pure a)
  pure-Quiet a = record { keeps = λ P u d h. h }

  raise_error-Quiet : (o : Option String) → Quiet (raise_error o)
  raise_error-Quiet none = record { keeps = λ P u d h. h }
  raise_error-Quiet (some e) = record { keeps = λ P u d h. h }

  receive_files-Quiet :
      (run : Run) (index total : ℕ) (us : List Upload) → Quiet (receive_files run index total us)
  unfolding receive_files
  receive_files-Quiet run index total [] = pure-Quiet total
  receive_files-Quiet run index total (u ∷ us) =
      let r = run.received u.id in
      let total' = total + r.local_size in
      Quiet-bind _ _
        (raise_if-Quiet (not (same_size r.content_length u.size_bytes)) "upload_size_mismatch")
        λ _.
          Quiet-bind _ _
            (raise_if-Quiet (not (same_text r.content_type u.content_type)) "upload_type_mismatch")
            λ _. Quiet-bind _ _ (raise_if-Quiet (ltb 2147483648 total') "file_too_large") λ _.
              Quiet-bind _ _ (raise_error-Quiet r.verify_error) λ _.
                Quiet-bind _ _ (update_progress-Quiet (min (20 + index * 10) 50))
                  λ _. receive_files-Quiet run (index + 1) total' us

  prepare_inputs-Quiet : (p : Preparation) → Quiet (prepare_inputs p)
  unfolding prepare_inputs
  prepare_inputs-Quiet unprepared = record { keeps = λ P u d h. h }
  prepare_inputs-Quiet (prepare_raises e) = record { keeps = λ P u d h. h }
  prepare_inputs-Quiet (prepared words pages) = record { keeps = λ P u d h. ground arith }

  check_output-Quiet : (o : ToolOutput) → Quiet (check_output o)
  check_output-Quiet o = Quiet-bind _ _ (raise_if-Quiet (o.size == 0) "empty_output") λ _.
      Quiet-bind _ _
        (raise_if-Quiet
          (is_some o.locked_size
            && (not (is_some o.locked.filename) || not (is_some o.locked.content_type)))
          "invalid_locked_output")
        λ _.
          Quiet-bind _ _ (raise_if-Quiet (same_size o.locked_size 0) "empty_locked_output")
            λ _. Quiet-bind _ _ (update_progress-Quiet 90) λ _. pure-Quiet o

  pub check_result-Quiet : (p : Option ℕ) (r : RunResult) → Quiet (check_result p r)
  unfolding check_result
  check_result-Quiet none (run_raises e) = record { keeps = λ P u d h. h }
  check_result-Quiet (some p) (run_raises e) = record { keeps = λ P u d h. u d p h }
  check_result-Quiet none other_value = record { keeps = λ P u d h. h }
  check_result-Quiet (some p) other_value = record { keeps = λ P u d h. u d p h }
  check_result-Quiet none (tool_output o) = record { keeps = (check_output-Quiet o).keeps }
  check_result-Quiet (some p) (tool_output o) = record {
    keeps = λ P u d h. (check_output-Quiet o).keeps P u (report_progress (some p) d) (u d p h);
  }

module _ (redis : Redis) (names : KeyNames) (ids : RunIds) (tool : ToolManifest) (run : Run) where
  when_limit-Leads :
      (P Q : Desk redis → Type 0) (o : Option ℕ) (f : ℕ → Attempt redis (Unit {0}))
      → ((d : Desk redis) → P d → Q d)
      → ((n : ℕ) → Leads P Q (f n))
      → Leads P Q (when_limit redis names ids tool run o f)
  when_limit-Leads P Q none f weaker h d p = weaker d p
  when_limit-Leads P Q (some n) f weaker h d p = h n d p

  module _ (P Q R : Desk redis → Type 0) (up : Unmoved P) (uq : Unmoved Q)
      (pq : (d : Desk redis) → P d → Q d) (qr : (d : Desk redis) → Q d → R d)
      (hw : (n m : ℕ) → Leads P Q (reserve_word_quota redis names n m))
      (hd : (n m : ℕ) → Leads Q R (reserve_duration_quota redis names n m)) where
    limit_text-Leads :
        (o : JobOptions) (total : ℕ) (counts : ℕ × ℕ)
        → Leads Q R (limit_text redis names ids tool run o total counts)
    limit_text-Leads o total counts =
        let too_long = above o.max_characters (character_count redis names ids tool run o) in
        Leads-bind Q Q R (raise_if too_long "text_character_limit_exceeded") _
          ((raise_if-Quiet too_long "text_character_limit_exceeded").keeps Q uq) qr
          λ _.
            Leads-bind Q R R
              (when_limit redis names ids tool run o.max_minutes_per_month
                (reserve_duration_quota redis names (total_duration redis names ids tool run o)))
              (λ _.
                pure
                  (dynamic_cost tool (measures redis names ids tool run o total counts.0 counts.1)))
              (when_limit-Leads Q R o.max_minutes_per_month _ qr (hd _)) (λ d h. h) λ _ d h. h

    limit_words-Leads :
        (o : JobOptions) (total : ℕ) (counts : ℕ × ℕ)
        → Leads P R (limit_words redis names ids tool run o total counts)
    limit_words-Leads o total counts =
        Leads-bind P Q R
          (when_limit redis names ids tool run o.word_count_per_day
            (reserve_word_quota redis names counts.0))
          (λ _. limit_text redis names ids tool run o total counts)
          (when_limit-Leads P Q o.word_count_per_day _ pq (hw counts.0)) qr
          λ _. limit_text-Leads o total counts

    -- Up to the price only the two reservations of quotas change more than the progress.
    pub admit_inputs-Leads :
        (o : JobOptions) (uploads : List Upload)
        → Leads P R (admit_inputs redis names ids tool run o uploads)
    unfolding admit_inputs
    admit_inputs-Leads o uploads =
        Leads-bind P P R (receive_files run 0 0 uploads)
          (λ total. prepare_inputs run.preparation >>= limit_words redis names ids tool run o total)
          ((receive_files-Quiet run 0 0 uploads).keeps P up) (λ d h. qr d (pq d h))
          λ total.
            Leads-bind P P R (prepare_inputs run.preparation)
              (limit_words redis names ids tool run o total)
              ((prepare_inputs-Quiet run.preparation).keeps P up) (λ d h. qr d (pq d h))
              λ counts. limit_words-Leads o total counts

-- The condition is about neither the counters nor what is reserved of them.
pub record Settable {redis : Redis} (P : Desk redis → Type 0) : Type 0 where
  pub set_store : (d : Desk redis) (s : redis.Store) → P d → P (record d { store = s })
  pub set_words :
      (d : Desk redis) (n : ℕ)
      → P d
      → P (record d { job = record d.job { word_quota_reserved_words = n } })
  pub set_seconds :
      (d : Desk redis) (n : ℕ)
      → P d
      → P (record d { job = record d.job { duration_quota_reserved_seconds = n } })

module _ (redis : Redis) (e : Ending) (P : Desk redis → Type 0) (free : Settable P) where
  give_back_words-keeps :
      (o : Option String) (d : Desk redis) → P d → P (give_back_words redis e o d)
  give_back_words-keeps none d h = h
  give_back_words-keeps (some k) d h =
      let s = release_amount redis k d.job.word_quota_reserved_words d.store in
      ground (arith, free.set_words (record d { store = s }) 0 (free.set_store d s h))

  give_back_seconds-keeps :
      (o : Option String) (d : Desk redis) → P d → P (give_back_seconds redis e o d)
  give_back_seconds-keeps none d h = h
  give_back_seconds-keeps (some k) d h =
      let s = release_amount redis k d.job.duration_quota_reserved_seconds d.store in
      ground (arith, free.set_seconds (record d { store = s }) 0 (free.set_store d s h))

  give_back_slot-keeps : (o : Option String) (d : Desk redis) → P d → P (give_back_slot redis e o d)
  give_back_slot-keeps none d h = h
  give_back_slot-keeps (some k) d h =
      ground (arith, free.set_store d (release_key redis k d.store) h)

  pub give_back_quotas-keeps :
      (job : Job) (d : Desk redis) → P d → P (give_back_quotas redis e job d)
  give_back_quotas-keeps job d h =
      let v = give_back_words redis e job.word_quota_key d in
      let u = give_back_seconds redis e job.duration_quota_key v in
      give_back_slot-keeps job.quota_key u (
        give_back_seconds-keeps job.duration_quota_key v
          (give_back_words-keeps job.word_quota_key d h))
