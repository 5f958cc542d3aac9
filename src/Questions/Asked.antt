-- ===== src/Questions/Asked.antt =====
-- What a question of a signed-in caller leaves behind: `create_chat_question` of
-- backend/src/rendercart/jobs/router.py.
use render_cart.Prelude.{
  ℕ, ◌≡◌, ◌⊎◌, inl, inr, refl, sym, subst, String, Bool, true, false, ◌&&◌, Option, none, some, [],
  ◌∷◌, ◌++◌, if◌then◌else◌, Bool-cases, is_some, find_by, ◌==◌,
}
use render_cart.Prelude.Int.{pos, ltb_ℤ}
use render_cart.Access.{Level, below}
use render_cart.Quota.{Redis, value, increment_window}
use render_cart.Credits.{Wallet, Result}
use render_cart.Credits.Reserve.{hold_question_credit}
use render_cart.Credits.Settle.{release_credits}
use render_cart.Credits.Single.{hold_question_credit-eq-hold_credits}
use render_cart.Credits.Books.{Books}
use render_cart.Credits.Books.Holding.{FreshJob, HoldsJob}
use render_cart.Credits.Lifecycle.{Ended}
use render_cart.Jobs.{Job, JobState, Desk}
use render_cart.Jobs.Ending.{fail_job, mark_failed}
use render_cart.Jobs.Steps.{give_back_quotas-keeps}
use render_cart.Jobs.Settled.{when_user-some}
use render_cart.Creation.{Caller, Refusal}
use render_cart.Creation.Place.{
  Reply, accepted, refused, Slot, no_slot, slot_of, no_slot_left, key_of, release_slot,
  credit_refusal,
}
use render_cart.Creation.Slots.{
  Taken, untouched, turned_away, taken, Counts, take_slot-Taken, increment_window-Counts,
  release-counted,
}
use render_cart.Creation.Outcome.{
  Held, granted, declined, Ended-same, hold_nothing, hold_credits-Held, with_slot,
}
use render_cart.Upkeep.{TurnStatus}
use render_cart.Questions.{
  ChatTurn, ChatRows, Question, document_refusal, question_job, new_turn, turn_failed,
  owns_document,
}
use render_cart.Questions.Asking.{
  charge, no_charge, charge_held, charge_question, pays_credits, desk_of, send_question,
  store_question, place_question, question_slot, ask_known, create_chat_question,
}

module _ (redis : Redis) (q : Question) where
  -- A queued job and its turn were added: the credits are held and the slot is counted.
  pub record Inquired (before after : ChatRows redis) : Type 0 where
    pub job : Job
    pub turn : ChatTurn
    pub jobs : after.jobs ≡ before.jobs ++ job ∷ []
    pub turns : after.turns ≡ before.turns ++ turn ∷ []
    pub job_id : job.id ≡ q.job_id
    pub queued : (job.state ≡ JobState.queued) × (turn.status ≡ TurnStatus.queued)
    pub own : turn.job_id ≡ some q.job_id
    pub wallet : HoldsJob q.job_id job.charged_credits before.wallet after.wallet
    pub counters :
        (k : String)
        → value redis k after.store ≡ with_slot job.quota_key k (value redis k before.store)
    pub sent : after.sent ≡ before.sent ++ q.job_id ∷ []

  -- Nothing is left of the question but at most a failed job with a failed turn.
  pub record Dropped (before after : ChatRows redis) : Type 0 where
    pub wallet : Ended 0 before.wallet after.wallet
    pub counters : (k : String) → value redis k after.store ≡ value redis k before.store
    pub sent : after.sent ≡ before.sent
    pub rows :
        ((after.jobs ≡ before.jobs) × (after.turns ≡ before.turns))
        ⊎ ((j : Job) × (t : ChatTurn) × (after.jobs ≡ before.jobs ++ j ∷ [])
            × (after.turns ≡ before.turns ++ t ∷ [])
            × (j.state ≡ JobState.failed)
            × (t.status ≡ TurnStatus.failed))

  pub data Asked (before : ChatRows redis) : Reply × ChatRows redis → Type 0 where
    inquired :
        (after : ChatRows redis)
        → Inquired before after
        → Asked before (accepted JobState.queued, after)
    dropped :
        (e : Refusal) (after : ChatRows redis)
        → Dropped before after
        → Asked before (refused e, after)

  untouched-Asked : (e : Refusal) (r : ChatRows redis) → Books r.wallet → Asked r (refused e, r)
  untouched-Asked e r b = dropped e r record {
    wallet = Ended-same r.wallet b;
    counters = λ k. refl;
    sent = refl;
    rows = inl (refl, refl);
  }

  either_Asked :
      (r : ChatRows redis) (b : Bool) {x y : Reply × ChatRows redis}
      → Asked r x
      → Asked r y
      → Asked r (if b then x else y)
  either_Asked r true h k = h
  either_Asked r false h k = k

  failed_desk :
      (P : Desk redis → Type 0) (d : Desk redis)
      → ((x : Desk redis) (s : redis.Store) → P x → P (record x { store = s }))
      → ((x : Desk redis) (n : ℕ)
          → P x
          → P (record x { job = record x.job { word_quota_reserved_words = n } }))
      → ((x : Desk redis) (n : ℕ)
          → P x
          → P (record x { job = record x.job { duration_quota_reserved_seconds = n } }))
      → P (mark_failed redis q.ending "queue_unavailable" d)
      → P (fail_job redis q.ending "queue_unavailable" d)
  unfolding fail_job
  failed_desk P d hs hw hd p =
      give_back_quotas-keeps redis q.ending P
        (record { set_store = hs; set_words = hw; set_seconds = hd }) d.job
        (mark_failed redis q.ending "queue_unavailable" d) p

  module _ (who : Caller) (user : ℕ) (known : who.user ≡ some user) (r : ChatRows redis)
      (b : Books r.wallet) (f : FreshJob q.job_id r.wallet) where
    -- A job of a question has reserved nothing but its slot.
    failed_store :
        (cost : ℕ) (slot : Slot) (v : Wallet) (s : redis.Store)
        → (fail_job redis q.ending "queue_unavailable"
            (desk_of redis (question_job q who cost slot) v (record r { store = s }))).store
          ≡ release_slot redis slot s
    unfolding fail_job
    failed_store cost no_slot v s = refl
    failed_store cost (slot_of key) v s = refl
    failed_store cost (no_slot_left e) v s = refl

    send_question-Asked :
        (cost : ℕ) (slot : Slot) (s : redis.Store) (v : Wallet)
        → ((k : String) → value redis k s ≡ with_slot (key_of slot) k (value redis k r.store))
        → ((k : String) → value redis k (release_slot redis slot s) ≡ value redis k r.store)
        → HoldsJob q.job_id cost r.wallet v
        → Ended 0 r.wallet (release_credits q.ending.ledger_id q.job_id cost v)
        → Asked r (send_question redis q (question_job q who cost slot) v (record r { store = s }))
    send_question-Asked cost slot s v slotted back h ended =
        let j = question_job q who cost slot in
        let d = desk_of redis j v (record r { store = s }) in
        either_Asked r q.broker_works
          (inquired _ record {
            job = j;
            turn = new_turn q;
            jobs = refl;
            turns = refl;
            job_id = refl;
            queued = (refl, refl);
            own = refl;
            wallet = h;
            counters = slotted;
            sent = refl;
          })
          (dropped (503, "Question queue is unavailable") _
            record {
              wallet =
                  failed_desk (λ x. Ended 0 r.wallet x.wallet) d (λ x t p. p) (λ x n p. p)
                    (λ x n p. p)
                    (subst (λ w. Ended 0 r.wallet w)
                      (sym (
                        when_user-some who.user (release_credits q.ending.ledger_id q.job_id cost) v
                          (rw known refl)))
                      ended);
              counters = λ k.
                  subst (λ t. value redis k t ≡ value redis k r.store)
                    (sym (failed_store cost slot v s)) (back k);
              sent = refl;
              rows = inr (
                (fail_job redis q.ending "queue_unavailable" d).job,
                turn_failed q.now "queue_unavailable" (new_turn q),
                refl,
                refl,
                failed_desk (λ x. x.job.state ≡ JobState.failed) d (λ x t p. p) (λ x n p. p)
                    (λ x n p. p) refl,
                refl,
              );
            })

    module _ (slot : Slot) (s : redis.Store)
        (slotted : (k : String)
          → value redis k s ≡ with_slot (key_of slot) k (value redis k r.store))
        (back : (k : String)
          → value redis k (release_slot redis slot s) ≡ value redis k r.store) where
      held-Asked :
          {w : Result Wallet}
          → Held q.job_id 1 q.ending.ledger_id r.wallet w
          → Asked r (store_question redis q who slot (charge_held w) (record r { store = s }))
      held-Asked (granted v h ended) = send_question-Asked 1 slot s v slotted back h ended
      held-Asked (declined e) = dropped (credit_refusal e) _ record {
        wallet = Ended-same r.wallet b;
        counters = back;
        sent = refl;
        rows = inl (refl, refl);
      }

      either_charge-Asked :
          (pays : Bool)
          → Asked r (
              store_question redis q who slot
                (if pays
                  then charge_held (hold_question_credit q.job_id q.hold_id q.now r.wallet)
                  else charge 0 r.wallet)
                (record r { store = s }))
      either_charge-Asked true = held-Asked (
          subst (Held q.job_id 1 q.ending.ledger_id r.wallet)
            (sym (hold_question_credit-eq-hold_credits q.job_id q.hold_id q.now r.wallet))
            (hold_credits-Held true q.job_id q.hold_id q.ending.ledger_id q.now 1 r.wallet b f))
      either_charge-Asked false =
          let (h, ended) = hold_nothing q.job_id q.ending.ledger_id r.wallet b f in
          send_question-Asked 0 slot s r.wallet slotted back h ended

      store_question-Asked : Asked r (
          store_question redis q who slot (charge_question q who r.wallet) (record r { store = s }))
      store_question-Asked =
          let signed_in : is_some who.user ≡ true = rw known refl in
          subst
            (λ x. Asked r (
              store_question redis q who slot
                (if pays_credits who.level
                  then (if x
                      then charge_held (hold_question_credit q.job_id q.hold_id q.now r.wallet)
                      else no_charge (401, "Sign in to use credits"))
                  else charge 0 r.wallet)
                (record r { store = s })))
            (sym signed_in) (either_charge-Asked (pays_credits who.level))

    place_question-Asked :
        {t : Slot × redis.Store}
        → Counts redis r.store
        → Taken redis r.store t
        → Asked r (place_question redis q who t r)
    place_question-Asked counts untouched =
        store_question-Asked no_slot r.store (λ k. refl) (λ k. refl)
    place_question-Asked counts (turned_away e) = untouched-Asked e r b
    place_question-Asked counts (taken key s h) =
        store_question-Asked (slot_of key) s h (λ k. release-counted redis key k r.store s counts h)

    question_slot-Taken :
        Counts redis r.store → Taken redis r.store (question_slot redis q who r.store)
    question_slot-Taken counts = elim (Bool-cases (below who.level Level.day_pass)) [
      | inl limited ↦ rw limited (
          take_slot-Taken redis q.quota_key 10 172800 (402, "Daily question limit reached") r.store
            counts)
      | inr paid ↦ rw paid untouched
    ]

    ask_known-Asked :
        (o : Option Refusal) → Counts redis r.store → Asked r (ask_known redis q who o r)
    ask_known-Asked none counts = place_question-Asked counts (question_slot-Taken counts)
    ask_known-Asked (some e) counts = untouched-Asked e r b

-- For a signed-in caller with sound books, a fresh job and counters that are not negative, a
-- question is all or nothing, once its request is counted in the hourly window. If it is accepted,
-- a queued job and a queued turn of it are added and the job is sent: its charge is held in sound
-- books, and its quota slot is counted. If it is refused, the wallet has its balance and its holds,
-- every counter and message is as before, and at most one failed job with a failed turn was added.
pub create_chat_question-Asked :
    (redis : Redis) (q : Question) (who : Caller) (user : ℕ) (r : ChatRows redis)
    → who.user ≡ some user
    → Books r.wallet
    → FreshJob q.job_id r.wallet
    → Counts redis r.store
    → Asked redis q
        (record r { store = (increment_window redis q.window_key 3600 r.store).1 })
        (create_chat_question redis q who r)
unfolding create_chat_question
create_chat_question-Asked redis q who user r known b f counts =
    let (count, store) = increment_window redis q.window_key 3600 r.store in
    let r' : ChatRows redis = record r { store = store } in
    let document = find_by (λ d. d.id == q.document_id && owns_document who d) r.documents in
    either_Asked redis q r' (ltb_ℤ (pos 30) count)
      (untouched-Asked redis q (429, "Too many questions. Try again later.") r' b)
      (ask_known-Asked redis q who user known r' b f (document_refusal q r.jobs document)
        (increment_window-Counts redis q.window_key 3600 r.store counts))
