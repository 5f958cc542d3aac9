-- ===== src/Creation/Guards.antt =====
-- The guards of `create_job` (backend/src/rendercart/jobs/router.py) before the quota, in their order.
use text.Mathlib.Text.{◌==◌ as str_eq}
use render_cart.Prelude.{
  ℕ, ◌*◌, ◌%◌, min, String, Bool, true, false, not, ◌&&◌, ◌||◌, Option, none, some, List, [], ◌∷◌,
  if◌then◌else◌, ◌==◌, ltb, leb, is_some, length, any_of, sum_by, find_by,
}
use render_cart.Access.{Level, below}
use render_cart.Registry.{ToolManifest, Category, JobTier, Limit, FileInput, lookup, tool_access}
use render_cart.Creation.{
  Caller, Creation, JobRequest, Refusal, Upload, first_refusal, max_for, or_default, or_else,
  same_tier, tool_limit,
}

-- The tool and the level of its limits, or the refusal.
pub data Chosen : Type 0 where
  chosen : ToolManifest → Level → Chosen
  denied : Refusal → Chosen

abbrev pub paid_tool : JobTier → Option ToolManifest → Chosen
paid_tool tier none = denied (404, "Tool not found")
paid_tool tier (some tool) =
    if tool.hidden || below Level.pro tool.min_level
    then denied (404, "Tool not found")
    else if same_tier tool.job_tier tier
    then chosen tool Level.pro
    else denied (400, "Single-job price tier does not match this tool")

abbrev pub open_tool : Level → Option ToolManifest → Chosen
open_tool level none = denied (404, "Tool not found")
open_tool level (some tool) = chosen tool level

unfoldable pub choose_tool : Creation → Caller → JobRequest → Option JobTier → Chosen
choose_tool c who q (some tier) = paid_tool tier (lookup q.slug c.registry)
choose_tool c who q none = open_tool who.level (tool_access c.registry c.overrides q.slug who.level)

abbrev pub is_pdf : Category → Bool
is_pdf Category.pdf = true
is_pdf _ = false

abbrev pub batch_guards : Caller → JobRequest → ToolManifest → List (Bool × ℕ × String)
batch_guards who q tool =
    (is_some q.paid_tier, 400, "Batch jobs require an active Pro plan")
    ∷ (below who.level Level.pro, 402, "Batch processing is available with Pro")
    ∷ (
      not tool.batchable || not (is_pdf tool.category),
      400,
      "This tool does not support batch jobs",
    )
    ∷ (ltb (length q.upload_ids) 2, 422, "Batch mode needs at least two files")
    ∷ (
      ltb tool.batch_max_files (length q.upload_ids),
      413,
      "Batch jobs accept at most so many files",
    )
    ∷ (
      str_eq tool.slug "merge-pdf" && not (length q.upload_ids % 2 == 0),
      422,
      "Batch Merge PDF needs an even number of files, paired in selection order",
    )
    ∷ []

abbrev pub has_duplicates : List ℕ → Bool
has_duplicates [] = false
has_duplicates (i ∷ is) = any_of (λ j. j == i) is || has_duplicates is

-- The rows of the uploads in the order of the request; a missing one is left out.
abbrev pub uploads_of : List ℕ → List Upload → List Upload
uploads_of [] table = []
uploads_of (i ∷ is) table = elim (find_by (λ u. u.id == i) table) [
  | none ↦ uploads_of is table
  | some u ↦ u ∷ uploads_of is table
]

abbrev pub owns_upload : Caller → Upload → Bool
owns_upload who u = elim who.user [
  | some i ↦ elim u.user_id [ none ↦ false | some j ↦ j == i ]
  | none ↦ elim who.guest_id [
    | none ↦ not (is_some u.guest_id)
    | some g ↦ elim u.guest_id [ none ↦ false | some h ↦ str_eq h g ]
  ]
]

abbrev pub unusable : Creation → Caller → FileInput → Upload → Bool
unusable c who inputs u =
    not (owns_upload who u)
    || (leb u.expires_at c.now || not (any_of (str_eq u.content_type) inputs.accept))

-- A field of a limit, if there is one; no field is 0 (`ge=1`), so that `or` passes over None only.
abbrev pub limit_field : (Limit → Option ℕ) → Option Limit → Option ℕ
limit_field f none = none
limit_field f (some l) = f l

-- The most files of a request.
abbrev pub file_limit : Creation → JobRequest → ToolManifest → FileInput → Level → ℕ
file_limit c q tool inputs level =
    if q.batch_mode
    then min
        (or_default tool.batch_max_files (limit_field (λ l. l.max_files) (c.override_limit level)))
        tool.batch_max_files
    else or_default (max_for inputs.max_files level 1)
        (limit_field (λ l. l.max_files) (tool_limit c tool level))

abbrev pub megabytes : Creation → ToolManifest → FileInput → Level → ℕ
megabytes c tool inputs level =
    or_default (max_for inputs.max_total_mb level 10)
      (limit_field (λ l. l.max_total_mb) (tool_limit c tool level))

abbrev pub file_guards :
    Creation
    → Caller
    → JobRequest
    → ToolManifest
    → Level
    → FileInput
    → List Upload
    → List (Bool × ℕ × String)
file_guards c who q tool level inputs table =
    let uploads = uploads_of q.upload_ids table in
    (has_duplicates q.upload_ids, 400, "Duplicate uploads are not allowed")
    ∷ (ltb (length q.upload_ids) inputs.min_files, 422, "At least so many files are required")
    ∷ (not (length uploads == length q.upload_ids), 400, "One or more uploads are invalid")
    ∷ (any_of (unusable c who inputs) uploads, 404, "Upload not found")
    ∷ (
      ltb (file_limit c q tool inputs level) (length uploads)
          || ltb (megabytes c tool inputs level * 1024 * 1024) (sum_by (λ u. u.size_bytes) uploads),
      413,
      "Upload exceeds your plan's limits",
    )
    ∷ (
      str_eq q.slug "chat-with-pdf" && (below who.level Level.day_pass && c.has_active_document),
      409,
      "Delete your current document chat before indexing another PDF",
    )
    ∷ []

-- The guards on the options, which stand in the `if tool.options` block.
abbrev pub option_guards : Caller → JobRequest → List (Bool × ℕ × String)
option_guards who q =
    (not (is_some q.parsed_options), 422, "Invalid tool options")
    ∷ (
      (str_eq q.slug "resume-builder" && not q.template_classic)
          && (below who.level Level.day_pass && not (is_some q.paid_tier)),
      402,
      "Modern and compact resume layouts are available with a day pass or Pro",
    )
    ∷ (
      (str_eq q.slug "resume-builder" && q.rewrite_with_ai) && below who.level Level.pro,
      402,
      "AI resume rewriting is available with Pro",
    )
    ∷ (q.fields "consented" && not q.consented, 422, "Signing consent is required")
    ∷ []

abbrev pub inputs_refusal :
    Creation
    → Caller
    → JobRequest
    → ToolManifest
    → Level
    → Option FileInput
    → List Upload
    → Option Refusal
inputs_refusal c who q tool level none table = some (400, "Tool does not accept uploaded files")
inputs_refusal c who q tool level (some inputs) table =
    or_else (first_refusal (file_guards c who q tool level inputs table))
      (if q.has_options_class then first_refusal (option_guards who q) else none)

-- The guards between the choice of the tool and the quota.
unfoldable pub validate :
    Creation → Caller → JobRequest → ToolManifest → Level → List Upload → Option Refusal
unfolding tool_limit max_for
validate c who q tool level table =
    or_else (if q.batch_mode then first_refusal (batch_guards who q tool) else none)
      (inputs_refusal c who q tool level tool.inputs table)
