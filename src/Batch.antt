-- ===== src/Batch.antt =====
-- backend/src/rendercart/jobs/batch.py: the groups of a batch, its time limit, and `run_batch` over
-- the outcomes of the tool. An input is of any type; what a run of the tool on one group gives is
-- a parameter.
pub mod Packing
pub mod Archive
mod Tests
use text.Mathlib.Text.{◌==◌ as str_eq}
use render_cart.Prelude.{
  ℕ, ◌+◌, ◌-◌, ◌*◌, ◌/◌, ◌%◌, min, max, String, Bool, true, false, not, ◌&&◌, ◌||◌, Option, none,
  some, List, [], ◌∷◌, ◌++◌, if◌then◌else◌, ◌==◌, ltb, length,
}
use render_cart.Registry.{ToolManifest}

abbrev pub merges_pairs : ToolManifest → Bool
merges_pairs t = str_eq t.slug "merge-pdf"

unfoldable pub execution_timeout : ToolManifest → (input_count : ℕ) → (batch_mode : Bool) → ℕ
execution_timeout t count batch_mode =
    let run_count = if merges_pairs t then count / 2 else count in
    if not batch_mode then t.timeout_s else min (t.timeout_s * max 1 run_count) 86400

-- What one run of the tool leaves in the directory of its item.
pub record ItemOutput : Type 0 where
  pub has_locked : Bool
  pub inside_directory : Bool
  pub size : ℕ
  pub filename : String

pub data ItemResult : Type 0 where
  item_output : ItemOutput → ItemResult
  other_value : ItemResult
  run_raises : String → ItemResult

-- An entry of the archive: the index in its label, and the file that was written.
pub record Entry : Type 0 where
  pub index : ℕ
  pub filename : String
  pub size : ℕ

pub data BatchResult : Type 0 where
  archive : List Entry → BatchResult
  batch_error : String → BatchResult

abbrev pub max_batch_result_bytes : ℕ
max_batch_result_bytes = 500000000

abbrev pub add_entry : Entry → BatchResult → BatchResult
add_entry e (archive es) = archive (e ∷ es)
add_entry e (batch_error m) = batch_error m

-- The checks of one result; `rest` is what the later rounds give.
abbrev pub accept : (index total : ℕ) → ItemResult → (ℕ → BatchResult) → BatchResult
accept index total (run_raises m) rest = batch_error m
accept index total other_value rest = batch_error "invalid_tool_output"
accept index total (item_output o) rest =
    if o.has_locked
    then batch_error "locked_results_not_supported_in_batch"
    else if not o.inside_directory
    then batch_error "invalid_batch_output_path"
    else if o.size == 0
    then batch_error "empty_output"
    else if ltb max_batch_result_bytes (total + o.size)
    then batch_error "batch_output_too_large"
    else add_entry (record { index = index; filename = o.filename; size = o.size })
        (rest (total + o.size))

module _ {A : Type 0} where
  abbrev pub pairs : List A → List (List A)
  pairs [] = []
  pairs (x ∷ []) = (x ∷ []) ∷ []
  pairs (x ∷ y ∷ xs) = (x ∷ y ∷ []) ∷ pairs xs

  abbrev pub alone : List A → List (List A)
  alone [] = []
  alone (x ∷ xs) = (x ∷ []) ∷ alone xs

  -- `_groups`; none is the ValueError for a file without its pair.
  unfoldable pub groups : ToolManifest → List A → Option (List (List A))
  groups t inputs =
      if merges_pairs t
      then (if length inputs % 2 == 0 then some (pairs inputs) else none)
      else some (alone inputs)

  -- The loop over the groups, from an index and a total.
  unfoldable pub run_items : (List A → ItemResult) → (index total : ℕ) → List (List A) → BatchResult
  run_items runner index total [] = archive []
  run_items runner index total (g ∷ gs) =
      let rest = λ (total' : ℕ). run_items runner (index + 1) total' gs in
      accept index total (runner g) rest

  unfoldable pub run_batch : ToolManifest → (List A → ItemResult) → List A → BatchResult
  unfolding run_items groups
  run_batch t runner inputs =
      if not t.batchable || not t.has_runner
      then batch_error "batch_mode_not_supported"
      else if ltb (length inputs) 2 || ltb t.batch_max_files (length inputs)
      then batch_error "batch_file_count_out_of_range"
      else elim (groups t inputs) [
        | none ↦ batch_error "batch_merge_requires_file_pairs"
        | some gs ↦ run_items runner 1 0 gs
      ]
