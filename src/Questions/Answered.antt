-- ===== src/Questions/Answered.antt =====
-- How `answer_chat_question` of backend/src/rendercart/jobs/tasks.py leaves the job, the wallet and
-- the turn.
use render_cart.Prelude.{
  ℕ, ◌<◌, ◌≡◌, refl, sym, ap, subst, ◌∙◌, inl, inr, String, true, Option, none, some, List, [], ◌∷◌,
  ◌==◌, arith, All, Bool-cases, is_some, find_by,
}
use text.Mathlib.Text.{◌==◌ as str_eq}
use render_cart.Prelude.Int.{ℤ}
use render_cart.Jobs.States.{fail_job-state}
use render_cart.Jobs.Execute.Running.{is_queued}
use render_cart.Quota.{Redis}
use render_cart.Credits.Settle.{finish_credits}
use render_cart.Credits.Books.Settling.{finish_credits-SettlesJob}
use render_cart.Jobs.{Job, JobState}
use render_cart.Jobs.Settled.{Funded, EndsClosed, On, when_user-some, fail_job-Closed}
use render_cart.Upkeep.{TurnStatus}
use render_cart.Questions.{ChatTurn}
use render_cart.Questions.Answer.{
  DocumentChunk, Raised, named_error, Given, given, raised, Answering, ChatDesk, insert_page,
  unique_pages, cite, error_code_of, set_turn, fail_question, fail_turn, answer_turn, succeed_turn,
  take_answer, search_document, is_of_job, open_turn, answer_parsed, answer_chat_question,
  set_progress,
}

-- Page numbers that increase.
abbrev pub Ascending : List ℕ → Type 0
Ascending [] = Unit
Ascending (p ∷ ps) = All (λ q. p < q) ps × Ascending ps

insert_page-above :
    (r p : ℕ) (qs : List ℕ) → r < p → All (λ q. r < q) qs → All (λ q. r < q) (insert_page p qs)
insert_page-above r p [] h all = (h, tt)
insert_page-above r p (q ∷ qs) h all = ground (arith, insert_page-above r p qs h all.1)

above_trans : (p q : ℕ) (qs : List ℕ) → p < q → All (λ r. q < r) qs → All (λ r. p < r) qs
above_trans p q [] h all = tt
above_trans p q (r ∷ qs) h all = (omega (arith, all.0), above_trans p q qs h all.1)

insert_page-Ascending : (p : ℕ) (qs : List ℕ) → Ascending qs → Ascending (insert_page p qs)
insert_page-Ascending p [] a = (tt, tt)
insert_page-Ascending p (q ∷ qs) a =
    ground (arith, insert_page-Ascending p qs a.1, above_trans p q qs, insert_page-above q p qs)

unique_pages-Ascending : (cs : List DocumentChunk) → Ascending (unique_pages cs)
unique_pages-Ascending [] = tt
unique_pages-Ascending (c ∷ cs) =
    insert_page-Ascending c.page_number (unique_pages cs) (unique_pages-Ascending cs)

abbrev pub pages_of : List (ℕ × String) → List ℕ
pages_of [] = []
pages_of ((p, e) ∷ cs) = p ∷ pages_of cs

pages_of-cite :
    (excerpt : String → String) (cs : List DocumentChunk) (ps : List ℕ)
    → pages_of (cite excerpt cs ps) ≡ ps
pages_of-cite excerpt cs [] = refl
pages_of-cite excerpt cs (p ∷ ps) = ap (λ qs. p ∷ qs) (pages_of-cite excerpt cs ps)

set_turn_twice :
    (t u : ChatTurn) (ts : List ChatTurn) → t.id ≡ u.id → set_turn t (set_turn u ts) ≡ set_turn t ts
set_turn_twice t u [] e = refl
set_turn_twice t u (x ∷ ts) e = ground (arith, set_turn_twice t u ts e)

-- How the turn of a question ends with its job.
pub data Agrees (before after : List ChatTurn) (j : Job) : Type 0 where
  unread : j.state ≡ JobState.failed → after ≡ before → Agrees before after j
  answered :
      (t : ChatTurn)
      → after ≡ set_turn t before
      → t.job_id ≡ some j.id
      → t.status ≡ TurnStatus.succeeded
      → j.state ≡ JobState.succeeded
      → Ascending (pages_of t.citations)
      → Agrees before after j
  unanswered :
      (t : ChatTurn)
      → after ≡ set_turn t before
      → t.job_id ≡ some j.id
      → t.status ≡ TurnStatus.failed
      → j.state ≡ JobState.failed
      → t.error_code ≡ j.error_code
      → Agrees before after j

module _ (redis : Redis) (a : Answering) (b : ℤ) (h : ℕ) where
  -- The job is closed and the turn agrees with it.
  abbrev pub Concluded : List ChatTurn → ChatDesk redis → Type 0
  Concluded before c = EndsClosed b h c.desk × Agrees before c.turns c.desk.job

  fail_question-Concluded :
      (code : String) (c : ChatDesk redis)
      → On (Funded b h) c.desk
      → Concluded c.turns (fail_question redis a code c)
  fail_question-Concluded code c f = (
    fail_job-Closed b h a.ending code c.desk f,
    unread (fail_job-state a.ending code c.desk).0 refl,
  )

  fail_turn-Concluded :
      (before : List ChatTurn) (e : Raised) (t u : ChatTurn) (c : ChatDesk redis)
      → On (Funded b h) c.desk
      → c.turns ≡ set_turn u before
      → t.id ≡ u.id
      → t.job_id ≡ some c.desk.job.id
      → Concluded before (fail_turn redis a e t c)
  fail_turn-Concluded before e t u c f running same own =
      let t' : ChatTurn = record t {
        status = TurnStatus.failed;
        error_code = some (error_code_of e);
        completed_at = some a.now;
      } in
      let (failed, code, id) = fail_job-state a.ending (error_code_of e) c.desk in
      (
        fail_job-Closed b h a.ending (error_code_of e) c.desk f,
        unanswered t' (ap (set_turn t') running ∙ set_turn_twice t' u before same)
            (own ∙ ap (λ i. some i) (sym id)) refl failed (sym code),
      )

  succeed_turn-Concluded :
      (before : List ChatTurn) (text : String) (t u : ChatTurn) (c : ChatDesk redis)
      → On (Funded b h) c.desk
      → c.turns ≡ set_turn u before
      → t.id ≡ u.id
      → t.job_id ≡ some c.desk.job.id
      → Concluded before (succeed_turn redis a text t c)
  succeed_turn-Concluded before text t u c f running same own =
      let d = c.desk in
      let s =
        finish_credits-SettlesJob a.ending.ledger_id d.job.id d.job.charged_credits d.wallet f.books
          f.reserved in
      let w =
        when_user-some d.job.user_id
          (finish_credits a.ending.ledger_id d.job.id d.job.charged_credits) d.wallet f.signed_in in
      let t' = answer_turn redis a text t in
      (
        record {
          books = rw w s.books;
          released = rw w s.released;
          held_is = rw w (omega (arith, s.unheld, f.held_is));
          paid = inl (refl, rw (w, s.balance, f.balance_is) refl);
        },
        answered t' (ap (set_turn t') running ∙ set_turn_twice t' u before same) own refl refl (
            subst Ascending (sym (pages_of-cite a.excerpt a.matches (unique_pages a.matches)))
              (unique_pages-Ascending a.matches)),
      )

  take_answer-Concluded :
      (before : List ChatTurn) (g : Given String) (t : ChatTurn) (c : ChatDesk redis)
      → On (Funded b h) c.desk
      → c.turns ≡ set_turn t before
      → t.job_id ≡ some c.desk.job.id
      → Concluded before (take_answer redis a g t c)
  take_answer-Concluded before (raised e) t c f running own =
      fail_turn-Concluded before e t t c f running refl own
  take_answer-Concluded before (given text) t c f running own = elim (Bool-cases (str_eq text "")) [
    | inl empty ↦
        rw empty
          (fail_turn-Concluded before (named_error "chat_answer_empty") t t c f running refl own)
    | inr full ↦ rw full (succeed_turn-Concluded before text t t c f running refl own)
  ]

  search_document-Concluded :
      (before : List ChatTurn) (g : Given (Unit {0})) (chunks : List DocumentChunk) (t : ChatTurn)
      (c : ChatDesk redis)
      → On (Funded b h) c.desk
      → c.turns ≡ set_turn t before
      → t.job_id ≡ some c.desk.job.id
      → Concluded before (search_document redis a g chunks t c)
  search_document-Concluded before (raised e) chunks t c f running own =
      fail_turn-Concluded before e t t c f running refl own
  search_document-Concluded before (given x) [] t c f running own =
      fail_turn-Concluded before (named_error "document_has_no_indexed_chunks") t t c f running refl
        own
  search_document-Concluded before (given x) (m ∷ ms) t c f running own =
      take_answer-Concluded before a.answered t (set_progress redis a 45 c) f running own

  own_turn : (job : ℕ) (t : ChatTurn) → is_of_job redis a job t ≡ true → t.job_id ≡ some job
  own_turn job t e = ground arith

  open_turn-Concluded :
      (o : Option ChatTurn) (c : ChatDesk redis)
      → On (Funded b h) c.desk
      → Concluded c.turns (open_turn redis a o c)
  open_turn-Concluded none c f = fail_question-Concluded "chat_document_not_found" c f
  open_turn-Concluded (some t) c f = elim (Bool-cases (is_of_job redis a c.desk.job.id t)) [
    | inl own ↦
        let running : ChatTurn = record t { status = TurnStatus.running } in
        rw own (
          search_document-Concluded c.turns a.embedded a.matches running _ f refl
            (own_turn c.desk.job.id t own))
    | inr other ↦ rw other (fail_question-Concluded "chat_document_not_found" c f)
  ]

  answer_parsed-Concluded :
      (o : Option (ℕ × ℕ)) (c : ChatDesk redis)
      → On (Funded b h) c.desk
      → Concluded c.turns (answer_parsed redis a o c)
  answer_parsed-Concluded none c f = fail_question-Concluded "chat_request_invalid" c f
  answer_parsed-Concluded (some (document, turn)) c f =
      elim (Bool-cases (is_some (find_by (λ d. d.id == document) c.documents))) [
        | inl there ↦ rw there (open_turn-Concluded (find_by (λ t. t.id == turn) c.turns) c f)
        | inr gone ↦ rw gone (fail_question-Concluded "chat_document_not_found" c f)
      ]

-- A queued question of a signed-in user with sound books, which is charged what it holds, ends
-- when it is answered, whatever the gateway does: the job succeeds having paid its charge or
-- fails having paid nothing, it holds no credits and the books stay sound. Either the job failed
-- and no turn was touched, or one turn of the job ended with it: succeeded, with the pages that it
-- cites in increasing order, or failed with the job's error code.
pub answer_chat_question-Concluded :
    (redis : Redis) (a : Answering) (c : ChatDesk redis) (balance : ℤ) (others : ℕ)
    → c.desk.job.state ≡ JobState.queued
    → Funded balance others c.desk.wallet c.desk.job.id c.desk.job.charged_credits
        c.desk.job.user_id
    → Concluded redis a balance others c.turns (answer_chat_question redis a c)
unfolding answer_chat_question
answer_chat_question-Concluded redis a c balance others q f =
    let is : is_queued c.desk.job.state ≡ true = rw q refl in
    rw is (answer_parsed-Concluded redis a balance others a.parsed c f)
