-- ===== src/Questions/Answer.antt =====
-- `answer_chat_question` of backend/src/rendercart/jobs/tasks.py. What the gateway and the search for
-- excerpts give is a record, over which the theorems quantify.
use Prim.Native.String.{◌++◌ as str_append}
use text.Mathlib.Text.{◌==◌ as str_eq}
use render_cart.Prelude.{
  ℕ, zero, suc, ◌+◌, ◌/◌, ◌%◌, String, Bool, false, Option, none, some, List, [], ◌∷◌,
  if◌then◌else◌, ◌==◌, ltb, is_some, find_by, update_by,
}
use render_cart.Quota.{Redis}
use render_cart.Credits.Settle.{finish_credits}
use render_cart.Jobs.{JobState, Desk}
use render_cart.Jobs.Ending.{Ending, fail_job, when_user}
use render_cart.Jobs.Execute.Running.{is_queued}
use render_cart.Upkeep.{TurnStatus}
use render_cart.Questions.{ChatDocument, ChatTurn}

-- `DocumentChunk`
pub record DocumentChunk : Type 0 where
  pub page_number : ℕ
  pub content : String

-- An exception: a ValueError whose text is an identifier, or another one.
pub data Raised : Type 0 where
  named_error : String → Raised
  other_error : Raised

-- What a step outside gives.
pub data Given (A : Type 0) : Type 0 where
  given : A → Given A
  raised : Raised → Given A

-- The ids in the options (none if they do not parse), the embedding, the excerpts that are nearest
-- to it, the answer stripped, the first 500 characters of a text, and the clock.
pub record Answering : Type 0 where
  pub parsed : Option (ℕ × ℕ)
  pub embedded : Given (Unit {0})
  pub matches : List DocumentChunk
  pub answered : Given String
  pub excerpt : String → String
  pub now : ℕ
  pub ending : Ending

-- What the task reads and writes.
pub record ChatDesk (redis : Redis) : Type 0 where
  pub desk : Desk redis
  pub documents : List ChatDocument
  pub turns : List ChatTurn

-- `sorted({...})`: each page once, in order.
abbrev pub insert_page : ℕ → List ℕ → List ℕ
insert_page p [] = p ∷ []
insert_page p (q ∷ qs) =
    if p == q then q ∷ qs else if ltb p q then p ∷ q ∷ qs else q ∷ insert_page p qs

abbrev pub unique_pages : List DocumentChunk → List ℕ
unique_pages [] = []
unique_pages (c ∷ cs) = insert_page c.page_number (unique_pages cs)

-- The first excerpt of a page.
abbrev pub page_content : ℕ → List DocumentChunk → String
page_content p [] = ""
page_content p (c ∷ cs) = if c.page_number == p then c.content else page_content p cs

abbrev pub cite : (String → String) → List DocumentChunk → List ℕ → List (ℕ × String)
cite excerpt chunks [] = []
cite excerpt chunks (p ∷ ps) = (p, excerpt (page_content p chunks)) ∷ cite excerpt chunks ps

-- `str` of a number. Each step drops a digit, so that a number is enough fuel for itself.
abbrev pub digit_at : List String → ℕ → String
digit_at [] n = ""
digit_at (t ∷ ts) zero = t
digit_at (t ∷ ts) (suc n) = digit_at ts n

abbrev pub digit_text : ℕ → String
digit_text = digit_at ("0" ∷ "1" ∷ "2" ∷ "3" ∷ "4" ∷ "5" ∷ "6" ∷ "7" ∷ "8" ∷ "9" ∷ [])

abbrev pub decimal_on : (fuel : ℕ) → ℕ → String
decimal_on zero n = digit_text (n % 10)
decimal_on (suc fuel) n =
    let front = decimal_on fuel (n / 10) in
    if ltb n 10 then digit_text n else str_append front (digit_text (n % 10))

abbrev pub page_label : ℕ → String
page_label p = str_append "[p. " (str_append (decimal_on p p) "]")

abbrev pub join_labels : List ℕ → String
join_labels [] = ""
join_labels (p ∷ []) = page_label p
join_labels (p ∷ q ∷ ps) = str_append (page_label p) (str_append ", " (join_labels (q ∷ ps)))

abbrev pub with_sources : (text : String) → List ℕ → String
with_sources text ps = str_append text (str_append "\n\nSources: " (join_labels ps))

abbrev pub error_code_of : Raised → String
error_code_of (named_error code) = code
error_code_of other_error = "chat_answer_unavailable"

abbrev pub set_turn : ChatTurn → List ChatTurn → List ChatTurn
set_turn t = update_by (λ x. x.id == t.id) (λ x. t)

module _ (redis : Redis) (a : Answering) where
  abbrev pub fail_question : String → ChatDesk redis → ChatDesk redis
  fail_question code c = record c { desk = fail_job redis a.ending code c.desk }

  abbrev pub fail_turn : Raised → ChatTurn → ChatDesk redis → ChatDesk redis
  fail_turn e t c =
      let code = error_code_of e in
      fail_question code (record c {
        turns =
            set_turn
              (record t {
                status = TurnStatus.failed;
                error_code = some code;
                completed_at = some a.now;
              })
              c.turns;
      })

  abbrev pub answer_turn : (text : String) → ChatTurn → ChatTurn
  answer_turn text t = record t {
    answer = some (with_sources text (unique_pages a.matches));
    citations = cite a.excerpt a.matches (unique_pages a.matches);
    status = TurnStatus.succeeded;
    completed_at = some a.now;
    error_code = none;
  }

  -- The answer is stored, the charge is spent, and the job succeeds.
  abbrev pub succeed_turn : (text : String) → ChatTurn → ChatDesk redis → ChatDesk redis
  succeed_turn text t c =
      let d = c.desk in
      record c {
        turns = set_turn (answer_turn text t) c.turns;
        desk = record d {
          wallet =
              when_user d.job.user_id
                (finish_credits a.ending.ledger_id d.job.id d.job.charged_credits) d.wallet;
          job = record d.job {
            state = JobState.succeeded;
            progress = 100;
            finished_at = some a.now;
            expires_at = a.now + 7200;
          };
        };
      }

  abbrev pub take_answer : Given String → ChatTurn → ChatDesk redis → ChatDesk redis
  take_answer (raised e) t c = fail_turn e t c
  take_answer (given text) t c =
      if str_eq text ""
      then fail_turn (named_error "chat_answer_empty") t c
      else succeed_turn text t c

  abbrev pub set_progress : ℕ → ChatDesk redis → ChatDesk redis
  set_progress p c = record c { desk = record c.desk { job = record c.desk.job { progress = p } } }

  abbrev pub search_document :
      Given (Unit {0}) → List DocumentChunk → ChatTurn → ChatDesk redis → ChatDesk redis
  search_document (raised e) chunks t c = fail_turn e t c
  search_document (given u) [] t c = fail_turn (named_error "document_has_no_indexed_chunks") t c
  search_document (given u) (m ∷ ms) t c = take_answer a.answered t (set_progress 45 c)

  abbrev pub start_answer : ChatTurn → ChatDesk redis → ChatDesk redis
  start_answer t c =
      let running : ChatTurn = record t { status = TurnStatus.running } in
      search_document a.embedded a.matches running (record c {
        turns = set_turn running c.turns;
        desk = record c.desk {
          job = record c.desk.job {
            state = JobState.running;
            started_at = some a.now;
            progress = 10;
          };
        };
      })

  abbrev pub is_of_job : ℕ → ChatTurn → Bool
  is_of_job job t = elim t.job_id [ none ↦ false | some j ↦ j == job ]

  abbrev pub open_turn : Option ChatTurn → ChatDesk redis → ChatDesk redis
  open_turn none c = fail_question "chat_document_not_found" c
  open_turn (some t) c =
      if is_of_job c.desk.job.id t
      then start_answer t c
      else fail_question "chat_document_not_found" c

  abbrev pub answer_parsed : Option (ℕ × ℕ) → ChatDesk redis → ChatDesk redis
  answer_parsed none c = fail_question "chat_request_invalid" c
  answer_parsed (some (document, turn)) c =
      if is_some (find_by (λ d. d.id == document) c.documents)
      then open_turn (find_by (λ t. t.id == turn) c.turns) c
      else fail_question "chat_document_not_found" c

  unfoldable pub answer_chat_question : ChatDesk redis → ChatDesk redis
  answer_chat_question c = if is_queued c.desk.job.state then answer_parsed a.parsed c else c
