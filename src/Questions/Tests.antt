-- ===== src/Questions/Tests.antt =====
-- A question of a paid user with the broker up and down, its answer, and the laws at these inputs.
use render_cart.Prelude.{
  ℕ, Bool, ◌≡◌, refl, true, false, none, some, String, List, [], ◌∷◌, arith, map,
}
use render_cart.Prelude.Int.{pos, ◌+ℤ◌, ◌-ℤ◌}
use render_cart.Access.{Level}
use render_cart.Quota.{increment_window}
use render_cart.Quota.Memory.{memory}
use render_cart.Credits.{Wallet, usable_lots, order_lots}
use render_cart.Credits.Reserve.{hold_question_credit, first_free}
use render_cart.Credits.Books.{Books}
use render_cart.Jobs.{JobState}
use render_cart.Jobs.Ending.{Ending, fail_job}
use render_cart.Creation.{Caller}
use render_cart.Creation.Place.{accepted, refused, no_slot}
use render_cart.Questions.{ChatRows, ChatTurn, ChatDocument, Question, question_job, new_turn}
use render_cart.Questions.Asking.{create_chat_question, delete_chat_document}
use render_cart.Questions.Answer.{
  decimal_on, Answering, DocumentChunk, ChatDesk, given, raised, other_error, answer_chat_question,
}
use render_cart.Questions.Asked.{Asked, create_chat_question-Asked}
use render_cart.Questions.Answered.{Concluded, answer_chat_question-Concluded}

abbrev ending : Ending
ending = record {
  now = 1000;
  ledger_id = 101;
  level = Level.pro;
  retention = record { guest = 60; free = 60; pro = 1440 };
}

abbrev question : (broker_works : Bool) → Question
question broker_works = record {
  document_id = 4;
  question = "Who signs?";
  now = 1000;
  window_key = "chat:question:ip:unknown";
  quota_key = "quota:chat-questions:2026-01-01:u:7";
  job_id = 8;
  turn_id = 9;
  hold_id = 100;
  ending = ending;
  broker_works = broker_works;
}

abbrev who : Caller
who = record { user = some 7; guest_id = none; level = Level.pro }

abbrev wallet : (held : ℕ) → Wallet
wallet held = record {
  account = some (record { balance = pos 10; held = held });
  lots =
      record {
        id = 1;
        source_ledger_id = 11;
        total = 10;
        remaining = 10;
        held = held;
        expires_at = none;
        created_at = 50;
      }
      ∷ [];
  reservations = [];
  ledger = [];
}

abbrev document : ChatDocument
document = record {
  id = 4;
  user_id = some 7;
  guest_id = none;
  expires_at = some 5000;
  indexed_job_id = none;
}

abbrev rows : ChatRows memory
rows = record {
  wallet = wallet 0;
  store = λ k. none;
  documents = document ∷ [];
  jobs = [];
  turns = [];
  audit_log = [];
  audit_reports = [];
  sent = [];
}

wallet-Books : Books (wallet 0)
wallet-Books = record {
  balanced = refl;
  held = refl;
  covered = omega arith;
  known = tt;
  distinct = omega arith;
}

ask-queued : (create_chat_question memory (question true) who rows).0 ≡ accepted JobState.queued
unfolding create_chat_question hold_question_credit increment_window ◌+ℤ◌ ◌-ℤ◌ first_free
    usable_lots order_lots
ask-queued = refl

ask-unqueued :
    (create_chat_question memory (question false) who rows).0
    ≡ refused (503, "Question queue is unavailable")
unfolding create_chat_question hold_question_credit increment_window ◌+ℤ◌ ◌-ℤ◌ first_free
    usable_lots order_lots
ask-unqueued = refl

delete-own : (delete_chat_document memory 4 who rows).1.documents ≡ []
unfolding delete_chat_document
delete-own = refl

create_chat_question-Asked_example :
    Asked memory
      (question false)
      (record rows {
        store = (increment_window memory "chat:question:ip:unknown" 3600 (λ k. none)).1;
      })
      (create_chat_question memory (question false) who rows)
create_chat_question-Asked_example =
    create_chat_question-Asked memory (question false) who 7 rows refl wallet-Books tt
      λ k. (0, refl)

abbrev held_wallet : Wallet
held_wallet = record (wallet 1) {
  reservations = record { job_id = 8; credit_lot_id = 1; amount = 1 } ∷ [];
}

held_wallet-Books : Books held_wallet
held_wallet-Books = record {
  balanced = refl;
  held = refl;
  covered = omega arith;
  known = (refl, tt);
  distinct = omega arith;
}

abbrev chunk : (page : ℕ) (content : String) → DocumentChunk
chunk page content = record { page_number = page; content = content }

abbrev answering : Answering
answering = record {
  parsed = some (4, 9);
  embedded = given tt;
  matches = chunk 3 "Both sign." ∷ chunk 1 "Parties" ∷ chunk 3 "Dates" ∷ [];
  answered = given "Both [p. 3]";
  excerpt = λ text. text;
  now = 1100;
  ending = ending;
}

abbrev asked : ChatDesk memory
asked = record {
  desk = record {
    job = question_job (question true) who 1 no_slot;
    wallet = held_wallet;
    store = λ k. none;
    audit_log = [];
    indexing_jobs = [];
    audit_reports = [];
  };
  documents = document ∷ [];
  turns = new_turn (question true) ∷ [];
}

abbrev citations_of : List ChatTurn → List (List (ℕ × String))
citations_of = map (λ t. t.citations)

answer-cites :
    citations_of (answer_chat_question memory answering asked).turns
    ≡ ((1, "Parties") ∷ (3, "Both sign.") ∷ []) ∷ []
unfolding answer_chat_question
answer-cites = refl

answer-sources :
    map (λ t. t.answer) (answer_chat_question memory answering asked).turns
    ≡ some "Both [p. 3]\n\nSources: [p. 1], [p. 3]" ∷ []
unfolding answer_chat_question
answer-sources = refl

decimal-digits : decimal_on 120 120 ≡ "120"
decimal-digits = refl

answer-unavailable :
    (answer_chat_question memory
      (record answering { answered = raised other_error })
      asked).desk.job.error_code
    ≡ some "chat_answer_unavailable"
unfolding answer_chat_question fail_job
answer-unavailable = refl

answer_chat_question-Concluded_example :
    Concluded memory answering
      (pos 10)
      0
      (new_turn (question true) ∷ [])
      (answer_chat_question memory answering asked)
answer_chat_question-Concluded_example =
    answer_chat_question-Concluded memory answering asked (pos 10) 0 refl record {
      books = held_wallet-Books;
      reserved = refl;
      balance_is = refl;
      held_is = refl;
      signed_in = refl;
    }
