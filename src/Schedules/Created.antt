-- ===== src/Schedules/Created.antt =====
-- What a run of `generate_recurring_invoices` (backend/src/rendercart/jobs/tasks.py) creates, and
-- the numbers of its documents (business/numbering.py).
use render_cart.Prelude.{
  ℕ, ◌+◌, ◌≤◌, ◌≡◌, ◌≢◌, inl, inr, refl, ◌∙◌, Bool, true, false, ◌&&◌, Option, none, some, List, [],
  ◌∷◌, ◌++◌, arith, if◌then◌else◌, ◌==◌, All, All-append, All-map, Bool-cases,
}
use render_cart.Jobs.{Job}
use render_cart.Access.{Level}
use render_cart.Schedules.{Now, due_rows, limit, scheduled_job}
use render_cart.Schedules.Invoices.{
  DocumentType, DocumentNumber, InvoicePayload, InvoiceSchedule, InvoiceRows, InvoiceRun,
  reserve_number, following, same_type, create_invoice_job, attempt_invoice, renew_invoice,
  renew_each, generate_recurring_invoices, not_pro, is_due, renewed,
}

abbrev Entry : Type 0
Entry = Job × InvoicePayload

abbrev number_in : Option DocumentNumber → ℕ
number_in none = 0
number_in (some d) = d.number

abbrev seq_value : Option ℕ → ℕ
seq_value none = 0
seq_value (some n) = n

-- The number of a created document is not ahead of the sequence of its user and type.
pub record Issued (sequences : ℕ → DocumentType → Option ℕ) (e : Entry) : Type 0 where
  pub within :
      (u : ℕ)
      → e.0.user_id ≡ some u
      → number_in e.1.number ≤ seq_value (sequences u e.1.document_type)

-- Two documents of one user and one type have different numbers.
pub record Apart (e f : Entry) : Type 0 where
  pub differ :
      e.0.user_id ≡ f.0.user_id
      → e.1.document_type ≡ f.1.document_type
      → number_in e.1.number ≢ number_in f.1.number

abbrev AllApart : List Entry → Type 0
AllApart [] = Unit
AllApart (e ∷ es) = All (Apart e) es × AllApart es

pub record Numbered (r : InvoiceRows) : Type 0 where
  pub issued : All (Issued r.sequences) r.jobs
  pub apart : AllApart r.jobs

AllApart-append :
    (es : List Entry) (f : Entry) → AllApart es → All (λ e. Apart e f) es → AllApart (es ++ f ∷ [])
AllApart-append [] f h k = (tt, tt)
AllApart-append (e ∷ es) f h k =
    (All-append (Apart e) es (f ∷ []) h.0 (k.0, tt), AllApart-append es f h.1 k.1)

same_type-true : (a b : DocumentType) → same_type a b ≡ true → a ≡ b
same_type-true DocumentType.invoice DocumentType.invoice h = refl
same_type-true DocumentType.quote DocumentType.quote h = refl
same_type-true DocumentType.receipt DocumentType.receipt h = refl
same_type-true a b h = cc

same_type_refl : (a : DocumentType) → same_type a a ≡ true
same_type_refl DocumentType.invoice = refl
same_type_refl DocumentType.quote = refl
same_type_refl DocumentType.receipt = refl

abbrev raised : ℕ → DocumentType → InvoiceRows → ℕ → DocumentType → Option ℕ
raised user type r u t =
    if u == user && same_type t type
    then some (following (r.sequences user type))
    else r.sequences u t

seq_value-following : (o : Option ℕ) → following o ≡ seq_value o + 1
seq_value-following none = refl
seq_value-following (some n) = refl

raised_same :
    (user : ℕ) (type : DocumentType) (r : InvoiceRows)
    → seq_value (raised user type r user type) ≡ seq_value (r.sequences user type) + 1
raised_same user type r =
    ground (arith, same_type_refl type, seq_value-following (r.sequences user type))

raised-le :
    (user : ℕ) (type : DocumentType) (r : InvoiceRows) (u : ℕ) (t : DocumentType)
    → seq_value (r.sequences u t) ≤ seq_value (raised user type r u t)
raised-le user type r u t = elim (Bool-cases (u == user && same_type t type)) [
  | inl hit ↦
      let eu : u ≡ user = ground (arith, hit) in
      let et : t ≡ type = same_type-true t type (ground (arith, hit)) in
      rw (eu, et) (omega (arith, raised_same user type r))
  | inr miss ↦ rw miss (omega arith)
]

raised-Issued :
    (user : ℕ) (type : DocumentType) (r : InvoiceRows) (e : Entry)
    → Issued r.sequences e
    → Issued (raised user type r) e
raised-Issued user type r e h = record {
  within = λ u own. omega (arith, h.within u own, raised-le user type r u e.1.document_type);
}

module _ (user : ℕ) (r : InvoiceRows) (f : Entry) (owner : f.0.user_id ≡ some user) where
  new-Issued :
      number_in f.1.number ≡ following (r.sequences user f.1.document_type)
      → Issued (raised user f.1.document_type r) f
  new-Issued n = record {
    within = λ u own.
        let same : user ≡ u = cc in
        rw (← same) (
          omega (
            arith,
            n,
            raised_same user f.1.document_type r,
            seq_value-following (r.sequences user f.1.document_type),
          ));
  }

  new-Apart :
      number_in f.1.number ≡ following (r.sequences user f.1.document_type)
      → (e : Entry) → Issued r.sequences e
      → Apart e f
  new-Apart n e h = record {
    differ = λ own type same.
        let le : number_in e.1.number ≤ seq_value (r.sequences user e.1.document_type) =
          h.within user (own ∙ owner) in
        let le' : number_in e.1.number ≤ seq_value (r.sequences user f.1.document_type) =
          rw type at le in
        omega (arith, le', n, same, seq_value-following (r.sequences user f.1.document_type));
  }

abbrev new_entry : Now → ℕ → InvoiceSchedule → InvoicePayload → InvoiceRows → Entry
new_entry now job_id s p r = (
  scheduled_job job_id s.user_id now.time "invoice-generator" 0,
  renewed now.today (reserve_number s.user_id p.document_type r).0 p,
)

create_invoice_job-Numbered :
    (now : Now) (job_id : ℕ) (s : InvoiceSchedule) (p : InvoicePayload) (r : InvoiceRows)
    → Numbered r
    → Numbered (create_invoice_job now job_id s p r)
unfolding create_invoice_job
create_invoice_job-Numbered now job_id s p r h =
    let f = new_entry now job_id s p r in
    record {
      issued =
          All-append _ r.jobs (f ∷ [])
            (All-map (Issued r.sequences) (raised-Issued s.user_id p.document_type r) r.jobs
              h.issued)
            (new-Issued s.user_id r f refl refl, tt);
      apart =
          AllApart-append r.jobs f h.apart
            (All-map (Issued r.sequences) (new-Apart s.user_id r f refl refl) r.jobs h.issued);
    }

attempt_invoice-Numbered :
    (now : Now) (tool : Bool) (job_id : ℕ) (s : InvoiceSchedule) (o : Option InvoicePayload)
    (r : InvoiceRows)
    → Numbered r
    → Numbered (attempt_invoice now tool job_id s o r).0
attempt_invoice-Numbered now tool job_id s none r h = h
attempt_invoice-Numbered now false job_id s (some p) r h = h
attempt_invoice-Numbered now true job_id s (some p) r h =
    create_invoice_job-Numbered now job_id s p r h

renew_invoice-Numbered :
    (now : Now) (tool : Bool) (level : Option Level) (job_id : ℕ) (s : InvoiceSchedule)
    (r : InvoiceRows)
    → Numbered r
    → Numbered (renew_invoice now tool level job_id s r).0
unfolding renew_invoice
renew_invoice-Numbered now tool level job_id s r h = elim (Bool-cases (not_pro level)) [
  | inl lapsed ↦ rw lapsed (record { issued = h.issued; apart = h.apart })
  | inr pro ↦ rw pro (attempt_invoice-Numbered now tool job_id s s.payload r h)
]

renew_each-Numbered :
    (run : InvoiceRun) (ss : List InvoiceSchedule) (r : InvoiceRows)
    → Numbered r
    → Numbered (renew_each run ss r).0
unfolding renew_each
renew_each-Numbered run [] r h = h
renew_each-Numbered run (s ∷ ss) r h = renew_each-Numbered run ss _ (
    renew_invoice-Numbered run.now run.tool_available (run.levels s.user_id) (run.job_ids s.id) s r
      h)

-- The numbers of the documents stay unique: if no created document is ahead of the sequence of its
-- user and type, and no two of one user and type share a number, both hold after a run.
pub generate_recurring_invoices-Numbered :
    (run : InvoiceRun) (r : InvoiceRows)
    → Numbered r
    → Numbered (generate_recurring_invoices run r).0
unfolding generate_recurring_invoices
generate_recurring_invoices-Numbered run r h =
    renew_each-Numbered run
      (limit 50 (due_rows (λ s. s.next_run_at) is_due run.now.date r.schedules)) r h
