-- ===== src/Creation/Outcome.antt =====
-- What a request of a signed-in caller leaves behind: `create_job` of
-- backend/src/rendercart/jobs/router.py from the guards to the message.
use render_cart.Prelude.{
  ℕ, zero, suc, ◌≡◌, ◌⊎◌, inl, inr, refl, ap, ◌∙◌, String, Bool, true, false, Option, none, some,
  List, [], ◌∷◌, ◌++◌, if◌then◌else◌, arith, is_some, length, not, ◌&&◌,
}
use render_cart.Prelude.Int.{ℤ, pos, ◌-ℤ◌, int_laws}
use render_cart.Access.{Level}
use render_cart.Quota.{Redis, value}
use render_cart.Credits.{
  Wallet, Result, ok, err, CreditError, sign_in, not_enough_credits, not_enough_unexpired_credits,
}
use render_cart.Credits.Reserve.{hold_credits}
use render_cart.Credits.Settle.{release_credits}
use render_cart.Credits.Books.{Books}
use render_cart.Credits.Books.Settling.{held_by_job, release_credits-SettlesJob}
use render_cart.Credits.Books.Holding.{FreshJob, HoldsJob}
use render_cart.Credits.Books.Outcome.{hold_credits-HoldOutcome}
use render_cart.Credits.Lifecycle.{Ended, fresh_job_amount}
use render_cart.Registry.{ToolManifest, Limit}
use render_cart.Jobs.{Job, JobState}
use render_cart.Creation.{Rows, Caller, Creation, JobRequest, Refusal, guest_gate, tool_limit}
use render_cart.Creation.Guards.{uploads_of, Chosen, chosen, denied, choose_tool, validate}
use render_cart.Creation.Place.{
  Reply, accepted, refused, Slot, no_slot, slot_of, key_of, release_slot, new_job, admit,
  creation_cost, queue_failed, credit_refusal, send_job, store_job, charge_job, place_job,
  place_valid, place_chosen, create_job, unpaid,
}
use render_cart.Creation.Slots.{
  Taken, untouched, turned_away, taken, Counts, counted, reserve_slot-Taken, release-counted,
}

-- A hold for a job, and what its release leaves.
pub data Held (job cost release_id : ℕ) (w : Wallet) : Result Wallet → Type 0 where
  granted :
      (v : Wallet)
      → HoldsJob job cost w v
      → Ended 0 w (release_credits release_id job cost v)
      → Held job cost release_id w (ok v)
  declined : (e : CreditError) → Held job cost release_id w (err e)

pub Ended-same : (w : Wallet) → Books w → Ended 0 w w
Ended-same w b = record { books = b; balance = omega int_laws; held = refl }

release-HoldsJob :
    (job cost release_id : ℕ) (w v : Wallet)
    → FreshJob job w
    → HoldsJob job cost w v
    → Ended 0 w (release_credits release_id job cost v)
release-HoldsJob job cost release_id w v f h =
    let reserved : held_by_job job v ≡ cost =
      omega (arith, h.reserved, fresh_job_amount job w.reservations f) in
    let failed = release_credits-SettlesJob release_id job cost v h.books reserved in
    record {
      books = failed.books;
      balance = failed.balance ∙ ap (λ x. x -ℤ pos 0) h.balance;
      held = omega (arith, failed.unheld, h.held);
    }

-- Holding nothing changes nothing.
pub hold_nothing :
    (job release_id : ℕ) (w : Wallet)
    → Books w
    → FreshJob job w
    → HoldsJob job 0 w w × Ended 0 w (release_credits release_id job 0 w)
hold_nothing job release_id w b f =
    let h : HoldsJob job 0 w w = record {
      books = b;
      balance = refl;
      held = omega arith;
      reserved = omega arith;
    } in
    (h, release-HoldsJob job 0 release_id w w f h)

pub hold_credits-Held :
    (signed_in : Bool)
    → (job hold_id release_id now cost : ℕ) (w : Wallet) → Books w
    → FreshJob job w
    → Held job cost release_id w (hold_credits signed_in job hold_id now cost w)
unfolding hold_credits
hold_credits-Held signed_in job hold_id release_id now zero w b f =
    let (h, ended) = hold_nothing job release_id w b f in granted w h ended
hold_credits-Held false job hold_id release_id now (suc n) w b f = declined sign_in
hold_credits-Held true job hold_id release_id now (suc n) w b f =
    elim (hold_credits-HoldOutcome job hold_id now n w b f) [
      | inl (v, _, e, h) ↦ rw e (granted v h (release-HoldsJob job (suc n) release_id w v f h))
      | inr (inl (_, _, e)) ↦ rw e (declined not_enough_unexpired_credits)
      | inr (inr (_, e)) ↦ rw e (declined not_enough_credits)
    ]

-- A counter after what became of the quota.
abbrev pub with_slot : (key : Option String) → (k : String) → ℤ → ℤ
with_slot none k n = n
with_slot (some key) k n = counted key k n

-- A job that is queued was handed to the broker, and one that waits for its payment was not.
abbrev pub Handed : (state : JobState) → (id : ℕ) → (before after : List ℕ) → Type 0
Handed JobState.queued id before after = after ≡ before ++ id ∷ []
Handed JobState.awaiting_payment id before after = after ≡ before
Handed state id before after = ⊥

module _ (redis : Redis) (c : Creation) where
  -- A job was added: its credits are held, its slot is counted, and it was sent if it is queued.
  pub record Added (state : JobState) (before after : Rows redis) : Type 0 where
    pub job : Job
    pub jobs : after.jobs ≡ before.jobs ++ job ∷ []
    pub job_id : job.id ≡ c.job_id
    pub job_state : job.state ≡ state
    pub wallet : HoldsJob c.job_id job.charged_credits before.wallet after.wallet
    pub counters :
        (k : String)
        → value redis k after.store ≡ with_slot job.quota_key k (value redis k before.store)
    pub sent : Handed state c.job_id before.sent after.sent

  -- Nothing is left of the request but at most a failed job.
  pub record Undone (before after : Rows redis) : Type 0 where
    pub wallet : Ended 0 before.wallet after.wallet
    pub counters : (k : String) → value redis k after.store ≡ value redis k before.store
    pub uploads : after.uploads ≡ before.uploads
    pub sent : after.sent ≡ before.sent
    pub jobs :
        (after.jobs ≡ before.jobs)
        ⊎ ((j : Job) × (after.jobs ≡ before.jobs ++ j ∷ []) × (j.state ≡ JobState.failed))

  pub data Placed (before : Rows redis) : Reply × Rows redis → Type 0 where
    added :
        (state : JobState) (after : Rows redis)
        → Added state before after
        → Placed before (accepted state, after)
    undone :
        (e : Refusal) (after : Rows redis) → Undone before after → Placed before (refused e, after)

  either_Placed :
      (r : Rows redis) (b : Bool) {x y : Reply × Rows redis}
      → (b ≡ true → Placed r x)
      → (b ≡ false → Placed r y)
      → Placed r (if b then x else y)
  either_Placed r true h k = h refl
  either_Placed r false h k = k refl

  untouched-Placed : (e : Refusal) (r : Rows redis) → Books r.wallet → Placed r (refused e, r)
  untouched-Placed e r b = undone e r record {
    wallet = Ended-same r.wallet b;
    counters = λ k. refl;
    uploads = refl;
    sent = refl;
    jobs = inl refl;
  }

  module _ (who : Caller) (q : JobRequest) (limit : Option Limit) (tool : ToolManifest)
      (r : Rows redis) where
    send_job-Placed :
        (cost : ℕ) (slot : Slot) (s : redis.Store) (v : Wallet)
        → ((k : String) → value redis k s ≡ with_slot (key_of slot) k (value redis k r.store))
        → ((k : String) → value redis k (release_slot redis slot s) ≡ value redis k r.store)
        → HoldsJob c.job_id cost r.wallet v
        → Ended 0 r.wallet (release_credits c.release_id c.job_id cost v)
        → Placed r (
            send_job redis c q slot
              (new_job c who q limit tool cost slot)
              v
              (record r { store = s }))
    send_job-Placed cost slot s v slotted back h ended =
        let j = new_job c who q limit tool cost slot in
        either_Placed r (not (unpaid q))
          (λ paid. added JobState.awaiting_payment _ record {
            job = j;
            jobs = refl;
            job_id = refl;
            job_state = ground arith;
            wallet = h;
            counters = slotted;
            sent = refl;
          })
          λ free.
            either_Placed r c.broker_works
              (λ works. added JobState.queued _ record {
                job = j;
                jobs = refl;
                job_id = refl;
                job_state = ground arith;
                wallet = h;
                counters = slotted;
                sent = refl;
              })
              λ down.
                undone (503, "Job queue is temporarily unavailable") _
                  record {
                    wallet = ended;
                    counters = back;
                    uploads = refl;
                    sent = refl;
                    jobs = inr (queue_failed c.now j, refl, refl);
                  }

    store_job-Placed :
        (cost : ℕ) (slot : Slot) (s : redis.Store) {w : Result Wallet}
        → Books r.wallet
        → ((k : String) → value redis k s ≡ with_slot (key_of slot) k (value redis k r.store))
        → ((k : String) → value redis k (release_slot redis slot s) ≡ value redis k r.store)
        → Held c.job_id cost c.release_id r.wallet w
        → Placed r (
            store_job redis c q slot
              (new_job c who q limit tool cost slot)
              w
              (record r { store = s }))
    store_job-Placed cost slot s b slotted back (granted v h ended) =
        send_job-Placed cost slot s v slotted back h ended
    store_job-Placed cost slot s b slotted back (declined e) = undone (credit_refusal e) _ record {
      wallet = Ended-same r.wallet b;
      counters = back;
      uploads = refl;
      sent = refl;
      jobs = inl refl;
    }

    charge_job-Placed :
        {t : Slot × redis.Store}
        → Books r.wallet
        → FreshJob c.job_id r.wallet
        → Counts redis r.store
        → Taken redis r.store t
        → Placed r (charge_job redis c who q limit tool t r)
    charge_job-Placed b f counts untouched =
        let cost = creation_cost who q tool (length (uploads_of q.upload_ids r.uploads)) in
        store_job-Placed cost no_slot r.store b (λ k. refl) (λ k. refl)
          (hold_credits-Held (is_some who.user) c.job_id c.hold_id c.release_id c.now cost r.wallet
            b f)
    charge_job-Placed b f counts (turned_away e) = untouched-Placed e r b
    charge_job-Placed b f counts (taken key s h) =
        let cost = creation_cost who q tool (length (uploads_of q.upload_ids r.uploads)) in
        store_job-Placed cost (slot_of key) s b h
          (λ k. release-counted redis key k r.store s counts h)
          (hold_credits-Held (is_some who.user) c.job_id c.hold_id c.release_id c.now cost r.wallet
            b f)

  module _ (who : Caller) (q : JobRequest) (r : Rows redis) (b : Books r.wallet)
      (f : FreshJob c.job_id r.wallet) (counts : Counts redis r.store) where
    place_valid-Placed :
        (tool : ToolManifest) (level : Level) (o : Option Refusal)
        → Placed r (place_valid redis c who q tool level o r)
    unfolding place_job
    place_valid-Placed tool level none =
        charge_job-Placed who q (tool_limit c tool level) tool r b f counts
          (reserve_slot-Taken redis c q (tool_limit c tool level) r.store counts)
    place_valid-Placed tool level (some e) = untouched-Placed e r b

    place_chosen-Placed : (o : Chosen) → Placed r (place_chosen redis c who q o r)
    place_chosen-Placed (denied e) = untouched-Placed e r b
    place_chosen-Placed (chosen tool level) =
        place_valid-Placed tool level (validate c who q tool level r.uploads)

    admit-Placed :
        (user : Option ℕ) (u : ℕ)
        → user ≡ some u
        → Placed r (admit redis c who q (guest_gate redis c user r))
    unfolding guest_gate
    admit-Placed user u e = rw e (place_chosen-Placed (choose_tool c who q q.paid_tier))

-- For a signed-in caller with sound books, a fresh job and counters that are not negative, a
-- request is all or nothing. If it is accepted, one job is added: its charge is held in sound
-- books, its quota slot is counted and no other counter moves, and it was sent to the broker
-- exactly if it is queued. If it is refused, the wallet has its balance and its holds, every
-- counter, upload and message is as before, and at most one job was added, which has failed.
pub create_job-Placed :
    (redis : Redis) (c : Creation) (who : Caller) (q : JobRequest) (r : Rows redis) (user : ℕ)
    → who.user ≡ some user
    → Books r.wallet
    → FreshJob c.job_id r.wallet
    → Counts redis r.store
    → Placed redis c r (create_job redis c who q r)
unfolding create_job
create_job-Placed redis c who q r user e b f counts =
    either_Placed redis c r (is_some q.paid_tier && not (is_some who.user))
      (λ anonymous. untouched-Placed redis c (401, "Sign in before purchasing a single job") r b)
      λ known. admit-Placed redis c who q r b f counts who.user user e
