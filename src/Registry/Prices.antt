-- ===== src/Registry/Prices.antt =====
-- The prices of `ToolManifest` (registry/models.py) and `credits_for_inputs` (jobs/batch.py).
-- Counts are natural numbers, so the tests for negative ones have no counterpart; a duration is
-- a whole number of microseconds, where the source has seconds as a float.
use render_cart.Prelude.{
  ℕ, ◌+◌, ◌-◌, ◌*◌, ◌/◌, Option, none, some, List, if◌then◌else◌, ◌==◌, ◌||◌, Bool, sum_by, ltb,
}
use render_cart.Registry.{ToolManifest}

-- `ceil(count / unit)`, that is `(count + unit - 1) // unit`.
unfoldable pub bands : (unit count : ℕ) → ℕ
bands unit count = (count + (unit - 1)) / unit

abbrev pub or_zero : Option ℕ → ℕ
or_zero none = 0
or_zero (some n) = n

module _ (t : ToolManifest) where
  unfoldable pub credits_for_pages : ℕ → ℕ
  credits_for_pages pages = or_zero t.credit_cost + bands 10 pages * t.credit_cost_per_10_pages

  unfoldable pub credits_for_bytes : ℕ → ℕ
  credits_for_bytes bytes = bands 100000000 bytes * t.credit_cost_per_100_mb

  unfoldable pub credits_for_duration : ℕ → ℕ
  credits_for_duration us =
      if us == 0 || t.credit_cost_per_minute == 0
      then 0
      else bands 60000000 us * t.credit_cost_per_minute

  unfoldable pub credits_for_ten_minute_bands : ℕ → ℕ
  credits_for_ten_minute_bands us =
      if us == 0 || t.credit_cost_per_10_minutes == 0
      then 0
      else bands 600000000 us * t.credit_cost_per_10_minutes

  unfoldable pub credits_for_word_bands : ℕ → ℕ
  credits_for_word_bands words =
      if words == 0 || t.credit_cost_per_10000_words == 0
      then 0
      else bands 10000 words * t.credit_cost_per_10000_words

  unfoldable pub credits_for_1000_word_bands : ℕ → ℕ
  credits_for_1000_word_bands words =
      if words == 0 || t.credit_cost_per_1000_words == 0
      then 0
      else bands 1000 words * t.credit_cost_per_1000_words

  unfoldable pub credits_for_text_characters : ℕ → ℕ
  credits_for_text_characters characters =
      if characters == 0 || t.credit_cost_per_1000_chars == 0
      then 0
      else bands 1000 characters * t.credit_cost_per_1000_chars

  -- Each document's page bands on its own; the list has the page count of each.
  unfoldable pub credits_for_inputs : List ℕ → ℕ
  credits_for_inputs pages = sum_by credits_for_pages pages

  -- Some price of the tool depends on its inputs: the test before the dynamic charge.
  abbrev pub has_dynamic_price : Bool
  has_dynamic_price =
      ltb 0 t.credit_cost_per_10_pages
      || ltb 0 t.credit_cost_per_page
      || ltb 0 t.credit_cost_per_100_mb
      || ltb 0 t.credit_cost_per_minute
      || ltb 0 t.credit_cost_per_10_minutes
      || ltb 0 t.credit_cost_per_10000_words
      || ltb 0 t.credit_cost_per_1000_words
      || ltb 0 t.credit_cost_per_1000_chars

-- What `execute_tool` measures of the inputs of a job.
pub record Measures : Type 0 where
  pub pages_of_inputs : List ℕ
  pub page_count : ℕ
  pub total_bytes : ℕ
  pub total_duration : ℕ
  pub word_count : ℕ
  pub character_count : ℕ

-- `dynamic_cost` of `execute_tool`.
unfoldable pub dynamic_cost : ToolManifest → Measures → ℕ
dynamic_cost t m =
    (if t.credit_cost_per_10_pages == 0 then 0 else credits_for_inputs t m.pages_of_inputs)
    + t.credit_cost_per_page * m.page_count
    + credits_for_bytes t m.total_bytes
    + credits_for_duration t m.total_duration
    + credits_for_ten_minute_bands t m.total_duration
    + credits_for_word_bands t m.word_count
    + credits_for_1000_word_bands t m.word_count
    + credits_for_text_characters t m.character_count
