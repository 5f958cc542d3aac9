-- ===== src/Questions.antt =====
-- The questions about a document (backend/src/rendercart/jobs/router.py): the rows, and what
-- `create_chat_question` refuses and stores. The handlers are in Questions/Asking, the task that
-- answers a question in Questions/Answer. The question is stripped already.
pub mod Asking
pub mod Answer
pub mod Asked
pub mod Answered
mod Tests
use text.Mathlib.Text.{◌==◌ as str_eq}
use render_cart.Prelude.{
  ℕ, ◌+◌, String, Bool, true, false, not, Option, none, some, List, [], ◌∷◌, if◌then◌else◌, ◌==◌,
  leb, is_some, find_by,
}
use render_cart.Quota.{Redis}
use render_cart.Credits.{Wallet}
use render_cart.Jobs.{Job, JobState, JobOptions, AuditRow, no_artifact}
use render_cart.Jobs.Ending.{Ending}
use render_cart.Creation.{Caller, Refusal}
use render_cart.Creation.Place.{Slot, key_of}
use render_cart.Upkeep.{TurnStatus}

-- `ChatDocument` and `ChatTurn`, the columns that the handlers read or write.
pub record ChatDocument : Type 0 where
  pub id : ℕ
  pub user_id : Option ℕ
  pub guest_id : Option String
  pub expires_at : Option ℕ
  pub indexed_job_id : Option ℕ

pub record ChatTurn : Type 0 where
  pub id : ℕ
  pub document_id : ℕ
  pub job_id : Option ℕ
  pub question : String
  pub answer : Option String
  pub citations : List (ℕ × String)
  pub status : TurnStatus
  pub error_code : Option String
  pub completed_at : Option ℕ

-- The rows of one caller, with the jobs that were handed to the broker.
pub record ChatRows (redis : Redis) : Type 0 where
  pub wallet : Wallet
  pub store : redis.Store
  pub documents : List ChatDocument
  pub jobs : List Job
  pub turns : List ChatTurn
  pub audit_log : List AuditRow
  pub audit_reports : List ℕ
  pub sent : List ℕ

-- A question, and what the call reads besides the rows: the clock, the keys of the counters, fresh
-- ids, how a job ends that cannot be queued, and whether the broker works.
pub record Question : Type 0 where
  pub document_id : ℕ
  pub question : String
  pub now : ℕ
  pub window_key : String
  pub quota_key : String
  pub job_id : ℕ
  pub turn_id : ℕ
  pub hold_id : ℕ
  pub ending : Ending
  pub broker_works : Bool

abbrev pub owns_document : Caller → ChatDocument → Bool
owns_document who d = elim who.user [
  | some i ↦ elim d.user_id [ none ↦ false | some j ↦ j == i ]
  | none ↦ elim who.guest_id [
    | none ↦ not (is_some d.guest_id)
    | some g ↦ elim d.guest_id [ none ↦ false | some h ↦ str_eq h g ]
  ]
]

abbrev pub is_succeeded : JobState → Bool
is_succeeded JobState.succeeded = true
is_succeeded _ = false

abbrev pub lapsed : (now : ℕ) → ChatDocument → Bool
lapsed now d = elim d.expires_at [ none ↦ false | some t ↦ leb t now ]

-- The job that indexes the document is still there and has not succeeded.
abbrev pub not_indexed : List Job → ChatDocument → Bool
not_indexed jobs d = elim d.indexed_job_id [
  | none ↦ false
  | some i ↦ elim (find_by (λ j. j.id == i) jobs) [
    | none ↦ false
    | some j ↦ not (is_succeeded j.state)
  ]
]

abbrev pub document_refusal : Question → List Job → Option ChatDocument → Option Refusal
document_refusal q jobs none = some (404, "Document not found")
document_refusal q jobs (some d) =
    if lapsed q.now d
    then some (404, "Document not found")
    else if not_indexed jobs d
    then some (409, "Document indexing is not complete")
    else if str_eq q.question ""
    then some (422, "Question cannot be empty")
    else none

abbrev pub no_options : JobOptions
no_options = record {
  bill_credits = false;
  batch_mode = false;
  max_minutes_per_month = none;
  max_characters = none;
  max_words = none;
  max_pages = none;
  word_count_per_day = none;
}

-- The options name the document and the turn; they are passed to the task that answers.
abbrev pub question_job : Question → Caller → (charged : ℕ) → Slot → Job
question_job q who charged slot = record {
  id = q.job_id;
  user_id = who.user;
  guest_id = who.guest_id;
  tool_slug = "chat-with-pdf";
  payment_tier = none;
  charged_credits = charged;
  state = JobState.queued;
  options = no_options;
  input_upload_ids = [];
  output = no_artifact;
  locked_output = no_artifact;
  progress = 0;
  quota_reserved = is_some (key_of slot);
  quota_key = key_of slot;
  duration_quota_key = none;
  duration_quota_reserved_seconds = 0;
  word_quota_key = none;
  word_quota_reserved_words = 0;
  error_code = none;
  created_at = q.now;
  started_at = none;
  finished_at = none;
  expires_at = q.now + 7200;
}

abbrev pub new_turn : Question → ChatTurn
new_turn q = record {
  id = q.turn_id;
  document_id = q.document_id;
  job_id = some q.job_id;
  question = q.question;
  answer = none;
  citations = [];
  status = TurnStatus.queued;
  error_code = none;
  completed_at = none;
}

abbrev pub turn_failed : (now : ℕ) → (code : String) → ChatTurn → ChatTurn
turn_failed now code t = record t {
  status = TurnStatus.failed;
  error_code = some code;
  completed_at = some now;
}

abbrev pub drop_indexed : (job : ℕ) → List ChatDocument → List ChatDocument
drop_indexed job [] = []
drop_indexed job (d ∷ ds) =
    if elim d.indexed_job_id [ none ↦ false | some i ↦ i == job ]
    then ds
    else d ∷ drop_indexed job ds
