-- ===== src/Questions/Asking.antt =====
-- `create_chat_question` and `delete_chat_document` of backend/src/rendercart/jobs/router.py.
use render_cart.Prelude.{
  ℕ, Bool, not, ◌&&◌, Option, none, some, [], ◌∷◌, ◌++◌, if◌then◌else◌, ◌==◌, is_some, find_by,
  filter_by,
}
use render_cart.Prelude.Int.{pos, ltb_ℤ}
use render_cart.Access.{Level, below}
use render_cart.Quota.{Redis, increment_window}
use render_cart.Credits.{Wallet, Result, ok, err}
use render_cart.Credits.Reserve.{hold_question_credit}
use render_cart.Jobs.{Job, JobState, Desk}
use render_cart.Jobs.Ending.{fail_job}
use render_cart.Creation.{Caller, Refusal}
use render_cart.Creation.Place.{
  Reply, accepted, refused, Slot, no_slot, no_slot_left, release_slot, take_slot, credit_refusal,
}
use render_cart.Questions.{
  ChatRows, Question, document_refusal, drop_indexed, new_turn, owns_document, question_job,
  turn_failed,
}

abbrev pub pays_credits : Level → Bool
pays_credits level = not (below level Level.day_pass) && below level Level.admin

-- The charge of a question and the wallet that holds it, or the refusal.
pub data Charge : Type 0 where
  charge : (cost : ℕ) → Wallet → Charge
  no_charge : Refusal → Charge

abbrev pub charge_held : Result Wallet → Charge
charge_held (ok w) = charge 1 w
charge_held (err e) = no_charge (credit_refusal e)

abbrev pub charge_question : Question → Caller → Wallet → Charge
charge_question q who w =
    if pays_credits who.level
    then (if is_some who.user
        then charge_held (hold_question_credit q.job_id q.hold_id q.now w)
        else no_charge (401, "Sign in to use credits"))
    else charge 0 w

module _ (redis : Redis) where
  -- What `_fail_job` reads and writes of the rows; it deletes a document that the job indexed.
  abbrev pub desk_of : Job → Wallet → ChatRows redis → Desk redis
  desk_of j w r = record {
    job = j;
    wallet = w;
    store = r.store;
    audit_log = r.audit_log;
    indexing_jobs = [];
    audit_reports = r.audit_reports;
  }

  abbrev pub unqueued : Question → Desk redis → ChatRows redis → ChatRows redis
  unqueued q d r = record r {
    wallet = d.wallet;
    store = d.store;
    documents = drop_indexed q.job_id r.documents;
    jobs = r.jobs ++ d.job ∷ [];
    turns = r.turns ++ turn_failed q.now "queue_unavailable" (new_turn q) ∷ [];
  }

  -- The job and the turn are stored and the job is sent; if the broker is down, the job fails.
  abbrev pub send_question : Question → Job → Wallet → ChatRows redis → Reply × ChatRows redis
  send_question q j w r =
      if q.broker_works
      then (
        accepted JobState.queued,
        record r {
          wallet = w;
          jobs = r.jobs ++ j ∷ [];
          turns = r.turns ++ new_turn q ∷ [];
          sent = r.sent ++ j.id ∷ [];
        },
      )
      else (
        refused (503, "Question queue is unavailable"),
        unqueued q (fail_job redis q.ending "queue_unavailable" (desk_of j w r)) r,
      )

  -- An exception before the commit rolls the rows back and gives the slot back.
  abbrev pub store_question :
      Question → Caller → Slot → Charge → ChatRows redis → Reply × ChatRows redis
  store_question q who slot (charge cost w) r = send_question q (question_job q who cost slot) w r
  store_question q who slot (no_charge e) r =
      (refused e, record r { store = release_slot redis slot r.store })

  abbrev pub place_question :
      Question → Caller → Slot × redis.Store → ChatRows redis → Reply × ChatRows redis
  place_question q who (no_slot_left e, s) r = (refused e, record r { store = s })
  place_question q who (slot, s) r =
      store_question q who slot (charge_question q who r.wallet) (record r { store = s })

  -- Ten questions a day without a plan.
  abbrev pub question_slot : Question → Caller → redis.Store → Slot × redis.Store
  question_slot q who s =
      if below who.level Level.day_pass
      then take_slot redis q.quota_key 10 172800 (402, "Daily question limit reached") s
      else (no_slot, s)

  abbrev pub ask_known :
      Question → Caller → Option Refusal → ChatRows redis → Reply × ChatRows redis
  ask_known q who (some e) r = (refused e, r)
  ask_known q who none r = place_question q who (question_slot q who r.store) r

  -- `create_chat_question`
  unfoldable pub create_chat_question : Question → Caller → ChatRows redis → Reply × ChatRows redis
  create_chat_question q who r =
      let (count, store) = increment_window redis q.window_key 3600 r.store in
      let r' : ChatRows redis = record r { store = store } in
      let document = find_by (λ d. d.id == q.document_id && owns_document who d) r.documents in
      if ltb_ℤ (pos 30) count
      then (refused (429, "Too many questions. Try again later."), r')
      else ask_known q who (document_refusal q r.jobs document) r'

  -- `delete_chat_document`; the rows of its turns go with it.
  unfoldable pub delete_chat_document :
      (document : ℕ) → Caller → ChatRows redis → Option Refusal × ChatRows redis
  delete_chat_document document who r =
      if is_some (find_by (λ d. d.id == document && owns_document who d) r.documents)
      then (
        none,
        record r {
          documents = filter_by (λ x. not (x.id == document)) r.documents;
          turns = filter_by (λ t. not (t.document_id == document)) r.turns;
        },
      )
      else (some (404, "Document not found"), r)
