-- ===== src/Jobs/Settled.antt =====
-- The credits of a job at the end of `execute_tool`, `_finish_job` and `_fail_job`
-- (backend/src/rendercart/jobs/tasks.py).
use render_cart.Prelude.{
  ℕ, zero, suc, ◌+◌, ◌≡◌, refl, ◌∙◌, ◌⊎◌, inl, inr, Bool, true, false, String, Option, none, some,
  List, arith, is_some, ◌&&◌,
}
use render_cart.Prelude.Int.{ℤ, pos, ◌-ℤ◌, int_laws}
use render_cart.Quota.{Redis}
use render_cart.Credits.{Wallet, Result, balance_of, held_of}
use render_cart.Credits.Reserve.{reserve_dynamic_credits}
use render_cart.Credits.Settle.{finish_credits, release_credits}
use render_cart.Credits.Books.{Books}
use render_cart.Credits.Books.Settling.{
  held_by_job, finish_credits-SettlesJob, release_credits-SettlesJob,
}
use render_cart.Credits.Books.Holding.{FreshJob}
use render_cart.Credits.Books.Dynamic.{reserve_dynamic_credits-DynamicOutcome, DynamicOutcome}
use render_cart.Registry.{ToolManifest}
use render_cart.Registry.Prices.{has_dynamic_price}
use render_cart.Jobs.{
  Job, JobState, queued, succeeded, failed, JobOptions, Desk, ◌>>◌, Artifact, Outcome, returns,
  raises, KeyNames, reserve_word_quota, reserve_duration_quota,
}
use render_cart.Jobs.Ending.{Ending, AuditEvent, finish_job, fail_job, mark_failed, when_user}
use render_cart.Jobs.Execute.{
  Upload, Run, ToolOutput, after_reserve, charge_job, check_result, failure_code, uploads_of,
}
use render_cart.Jobs.Execute.Running.{
  RunIds, bill, admit_inputs, process_job, end_job, store_report, run_job, run_tool, start_job,
  execute_tool, is_queued,
}
use render_cart.Jobs.Steps.{
  Leads, Leads-bind, admit_inputs-Leads, check_result-Quiet, give_back_quotas-keeps,
}

-- A condition on the part of the desk that credits are about.
abbrev pub MoneyCondition : Type 1
MoneyCondition = Wallet → ℕ → ℕ → Option ℕ → Type 0

abbrev pub On : {redis : Redis} → MoneyCondition → Desk redis → Type 0
On P d = P d.wallet d.job.id d.job.charged_credits d.job.user_id

-- A job of an account with sound books is charged exactly what it holds; `balance` is that of the
-- account, and `others` is what other jobs hold.
pub record Funded (balance : ℤ) (others : ℕ) (w : Wallet) (job charged : ℕ) (user : Option ℕ)
    : Type 0 where
  pub books : Books w
  pub reserved : held_by_job job w ≡ charged
  pub balance_is : balance_of w.account ≡ balance
  pub held_is : held_of w.account ≡ others + charged
  pub signed_in : is_some user ≡ true

-- If the job is still to be billed by its inputs, it holds nothing yet.
abbrev pub Ready : Bool → ℤ → ℕ → MoneyCondition
Ready billing balance others w job charged user =
    Funded balance others w job charged user
    × ((billing ≡ false) ⊎ (FreshJob job w × (charged ≡ 0)))

-- An ended job has paid its charge if it succeeded and nothing if it failed, and holds nothing.
pub record Closed (balance : ℤ) (others : ℕ) (w : Wallet) (job charged : ℕ) (state : JobState)
    : Type 0 where
  pub books : Books w
  pub released : held_by_job job w ≡ 0
  pub held_is : held_of w.account ≡ others
  pub paid :
      ((state ≡ succeeded) × (balance_of w.account ≡ balance -ℤ pos charged))
      ⊎ ((state ≡ failed) × (balance_of w.account ≡ balance))

abbrev pub EndsClosed : {redis : Redis} → ℤ → ℕ → Desk redis → Type 0
EndsClosed balance others d =
    Closed balance others d.wallet d.job.id d.job.charged_credits d.job.state

pub when_user-some :
    (o : Option ℕ) (f : Wallet → Wallet) (w : Wallet) → is_some o ≡ true → when_user o f w ≡ f w
when_user-some none f w h = ground (arith, h)
when_user-some (some u) f w h = refl

module _ {redis : Redis} (b : ℤ) (h : ℕ) where
  charged_Funded :
      (now n : ℕ) (d : Desk redis) (r : Result Wallet × ℕ)
      → On (Funded b h) d
      → d.job.charged_credits ≡ 0
      → DynamicOutcome d.job.id now (suc n) d.job.charged_credits d.wallet r
      → On (Funded b h) (after_reserve d r.0 r.1).1
  charged_Funded now n d r f z (inl (v, le, e, holds)) = rw e (record {
    books = holds.books;
    reserved = omega (arith, holds.reserved, f.reserved);
    balance_is = holds.balance ∙ f.balance_is;
    held_is = omega (arith, holds.held, f.held_is);
    signed_in = f.signed_in;
  })
  charged_Funded now n d r f z (inr (lt, e)) = rw e f

  charge_job-Funded :
      (ledger_id now cost : ℕ) (d : Desk redis)
      → On (Funded b h) d
      → FreshJob d.job.id d.wallet
      → d.job.charged_credits ≡ 0
      → On (Funded b h) (charge_job ledger_id now cost d).1
  unfolding charge_job reserve_dynamic_credits
  charge_job-Funded ledger_id now zero d f fresh z = f
  charge_job-Funded ledger_id now (suc n) d f fresh z = rw f.signed_in (
      charged_Funded now n d _ f z (
        reserve_dynamic_credits-DynamicOutcome d.job.id ledger_id now n d.job.charged_credits
          d.wallet f.books fresh))

  finish_job-Closed :
      (e : Ending) (output locked : Artifact) (event : Option AuditEvent) (d : Desk redis)
      → On (Funded b h) d
      → EndsClosed b h (finish_job redis e output locked event d)
  unfolding finish_job
  finish_job-Closed e output locked event d f =
      let s =
        finish_credits-SettlesJob e.ledger_id d.job.id d.job.charged_credits d.wallet f.books
          f.reserved in
      let w =
        when_user-some d.job.user_id (finish_credits e.ledger_id d.job.id d.job.charged_credits)
          d.wallet f.signed_in in
      record {
        books = rw w s.books;
        released = rw w s.released;
        held_is = rw w (omega (arith, s.unheld, f.held_is));
        paid = inl (refl, rw (w, s.balance, f.balance_is) refl);
      }

  pub fail_job-Closed :
      (e : Ending) (code : String) (d : Desk redis)
      → On (Funded b h) d
      → EndsClosed b h (fail_job redis e code d)
  unfolding fail_job
  fail_job-Closed e code d f =
      let s =
        release_credits-SettlesJob e.ledger_id d.job.id d.job.charged_credits d.wallet f.books
          f.reserved in
      let w =
        when_user-some d.job.user_id (release_credits e.ledger_id d.job.id d.job.charged_credits)
          d.wallet f.signed_in in
      give_back_quotas-keeps redis e (EndsClosed b h)
        (record { set_store = λ d s c. c; set_words = λ d n c. c; set_seconds = λ d n c. c }) d.job
        (mark_failed redis e code d)
        (record {
          books = rw w s.books;
          released = rw w s.released;
          held_is = rw w (omega (arith, s.unheld, f.held_is));
          paid = inr (refl, rw (w, s.balance, f.balance_is) (omega int_laws));
        })

module _ (redis : Redis) (names : KeyNames) (ids : RunIds) (tool : ToolManifest) (run : Run) (b : ℤ)
    (h : ℕ) where
  reserve_word_quota-On :
      (P : MoneyCondition) (n m : ℕ) → Leads (On P) (On P) (reserve_word_quota redis names n m)
  unfolding reserve_word_quota
  reserve_word_quota-On P n m d f = ground arith

  reserve_duration_quota-On :
      (P : MoneyCondition) (n m : ℕ) → Leads (On P) (On P) (reserve_duration_quota redis names n m)
  unfolding reserve_duration_quota
  reserve_duration_quota-On P n m d f = ground arith

  admit_inputs-On :
      (P : MoneyCondition) (o : JobOptions) (uploads : List Upload)
      → Leads (On P) (On P) (admit_inputs redis names ids tool run o uploads)
  admit_inputs-On P =
      admit_inputs-Leads redis names ids tool run (On P) (On P) (On P) (λ d p h. h) (λ d p h. h)
        (λ d h. h) (λ d h. h) (reserve_word_quota-On P) (reserve_duration_quota-On P)

  bill-Funded :
      (billing : Bool) (cost : ℕ)
      → Leads
          (On (Ready billing b h))
          (On (Funded b h))
          (bill redis names ids tool run billing cost)
  bill-Funded false cost d (f, ready) = f
  bill-Funded true cost d (f, ready) = elim ready [
    | inl never ↦ absurd (ground (arith, never))
    | inr (fresh, z) ↦ charge_job-Funded b h ids.hold_id ids.hold_now cost d f fresh z
  ]

  process_job-Funded :
      (o : JobOptions) (uploads : List Upload)
      → Leads
          (On (Ready (o.bill_credits && has_dynamic_price tool) b h))
          (On (Funded b h))
          (process_job redis names ids tool run o uploads)
  unfolding process_job
  process_job-Funded o uploads =
      let billing = o.bill_credits && has_dynamic_price tool in
      let ready = On {redis = redis} (Ready billing b h) in
      let funded = On {redis = redis} (Funded b h) in
      let check = check_result run.progress run.result in
      let charge = bill redis names ids tool run billing in
      Leads-bind ready ready funded (admit_inputs redis names ids tool run o uploads)
        (λ cost. charge cost >> check) (admit_inputs-On (Ready billing b h) o uploads) (λ d f. f.0)
        λ cost.
          Leads-bind ready funded funded (charge cost) (λ _. check) (bill-Funded billing cost)
            (λ d f. f) λ _. (check_result-Quiet run.progress run.result).keeps funded (λ d p h. h)

  store_report-Funded :
      (e : Ending) (o : ToolOutput) (d : Desk redis)
      → On (Funded b h) d
      → On (Funded b h) (store_report redis names ids tool run e o d)
  store_report-Funded e o d f = ground arith

  end_job-Closed :
      (e : Ending) (r : Outcome ToolOutput × Desk redis)
      → On (Funded b h) r.1
      → EndsClosed b h (end_job redis names ids tool run e r)
  end_job-Closed e (returns o, d) f =
      finish_job-Closed b h e o.artifact o.locked o.audit_event _ (store_report-Funded e o d f)
  end_job-Closed e (raises m, d) f = fail_job-Closed b h e (failure_code m) d f

  run_job-Closed :
      (e : Ending) (uploads : List Upload) (d : Desk redis)
      → On (Ready (d.job.options.bill_credits && has_dynamic_price tool) b h) d
      → EndsClosed b h (run_job redis names ids tool run e uploads d)
  run_job-Closed e uploads d f = ground (
    arith,
    fail_job-Closed b h e "upload_missing" d f.0,
    end_job-Closed e (process_job redis names ids tool run d.job.options uploads d)
        (process_job-Funded d.job.options uploads d f),
  )

-- A job is billed by its inputs if its plan pays with credits and the tool has such a price.
abbrev pub billed_by_inputs : Job → Option ToolManifest → Bool
billed_by_inputs job none = false
billed_by_inputs job (some tool) = job.options.bill_credits && has_dynamic_price tool

run_tool-Closed :
    (redis : Redis) (names : KeyNames) (ids : RunIds) (run : Run) (b : ℤ) (h : ℕ) (e : Ending)
    (table : List Upload) (tool : Option ToolManifest) (d : Desk redis)
    → On (Ready (billed_by_inputs d.job tool) b h) d
    → EndsClosed b h (run_tool redis names ids run e table tool d)
run_tool-Closed redis names ids run b h e table none d f =
    fail_job-Closed b h e "tool_unavailable" d f.0
run_tool-Closed redis names ids run b h e table (some tool) d f = ground (
  arith,
  fail_job-Closed b h e "tool_unavailable" d f.0,
  run_job-Closed redis names ids tool run b h e (uploads_of d.job.input_upload_ids table)
      (start_job redis names ids tool run d) f,
)

-- A queued job of a signed-in user with sound books, which is charged what it holds (and holds
-- nothing if it is to be billed by its inputs), ends when it is executed, whatever storage, the
-- checks and the tool do: it succeeds having paid exactly its charge, or fails having paid
-- nothing; it holds no credits any more, the credits held besides are as many as before, and the
-- books stay sound.
pub execute_tool-Closed :
    (redis : Redis) (names : KeyNames) (ids : RunIds) (run : Run) (e : Ending) (table : List Upload)
    (tool : Option ToolManifest) (d : Desk redis) (balance : ℤ) (others : ℕ)
    → d.job.state ≡ queued
    → Funded balance others d.wallet d.job.id d.job.charged_credits d.job.user_id
    → (billed_by_inputs d.job tool ≡ false)
      ⊎ (FreshJob d.job.id d.wallet × (d.job.charged_credits ≡ 0))
    → EndsClosed balance others (execute_tool redis names ids run e tool table d)
unfolding execute_tool
execute_tool-Closed redis names ids run e table tool d balance others q f r =
    let is : is_queued d.job.state ≡ true = rw q refl in
    rw is (run_tool-Closed redis names ids run balance others e table tool d (f, r))
