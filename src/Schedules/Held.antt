-- ===== src/Schedules/Held.antt =====
-- The credits of the jobs that `generate_website_audit_schedules`
-- (backend/src/rendercart/jobs/tasks.py) creates.
use render_cart.Prelude.{
  ℕ, ◌+◌, ◌≤◌, ◌<◌, ◌≡◌, ◌⊎◌, inl, inr, refl, sym, subst, ◌∙◌, Bool, true, false, not, Option, none,
  some, List, [], ◌∷◌, arith, if◌then◌else◌, ◌==◌, ltb, leb, Bool-cases, Option-cases, sum_by,
  sum_by-append,
}
use render_cart.Access.{Level}
use render_cart.Credits.{Account, Wallet, free_sum, usable_lots, balance_of, held_of}
use render_cart.Credits.Reserve.{with_hold}
use render_cart.Credits.Allocation.{allocate_sums}
use render_cart.Credits.Books.{Books}
use render_cart.Credits.Books.Usable.{free_sum-usable_lots}
use render_cart.Credits.Books.Holding.{HoldsJob, shares_of, allocated-HoldsJob, short_of-free_sum}
use render_cart.Credits.Books.Outcome.{no_account_no_credits}
use render_cart.Jobs.{Job}
use render_cart.Schedules.{Now, due_rows, limit, scheduled_job}
use render_cart.Schedules.Audits.{
  AuditSchedule, AuditRows, AuditRun, cost, audit_shares, hold_if, hold_for, create_audit_job,
  hold_audit, audit_with, audit_site, audit_each, generate_website_audit_schedules, not_pro,
}

-- The credits of a wallet that an audit may use at a time.
abbrev usable_sum : Now → Wallet → ℕ
usable_sum now w = free_sum (usable_lots now.time w.lots)

-- A hold of the cost for a new job is granted exactly when the unexpired lots have it free.
abbrev pub AuditHold : Now → (job_id : ℕ) → Wallet → Option Wallet → Type 0
AuditHold now job_id w r =
    ((v : Wallet) × (cost ≤ usable_sum now w) × (r ≡ some v) × HoldsJob job_id cost w v)
    ⊎ ((usable_sum now w < cost) × (r ≡ none))

hold_some :
    (now : Now) (job_id ledger_id : ℕ) (a : Account) (w : Wallet)
    → Books w
    → w.account ≡ some a
    → AuditHold now job_id w (hold_if job_id ledger_id (audit_shares now a w) a w)
hold_some now job_id ledger_id a w b e =
    let sums = allocate_sums cost (usable_lots now.time w.lots) in
    let usable_le = free_sum-usable_lots now.time w.lots in
    rw (short_of-free_sum cost a w b e) (elim (Bool-cases (ltb (free_sum w.lots) cost)) [
      | inl short ↦ rw short (inr (ground arith, ground (arith, allocate_sums cost [])))
      | inr long ↦ rw long (elim (Bool-cases (leb cost (usable_sum now w))) [
        | inl enough ↦
            let le : cost ≤ usable_sum now w = ground arith in
            inl (
              with_hold job_id ledger_id cost (shares_of now.time cost w) a w,
              le,
              ground arith,
              allocated-HoldsJob job_id ledger_id now.time cost a w b e le,
            )
        | inr little ↦ inr (ground arith)
      ])
    ])

hold_audit-AuditHold :
    (now : Now) (job_id ledger_id : ℕ) (w : Wallet)
    → Books w
    → AuditHold now job_id w (hold_audit now job_id ledger_id w)
unfolding hold_audit
hold_audit-AuditHold now job_id ledger_id w b = elim (Option-cases w.account) [
  | inl e ↦
      let empty = no_account_no_credits w b e in
      let usable_le = free_sum-usable_lots now.time w.lots in inr (omega arith, rw e refl)
  | inr (a, e) ↦
      subst (λ o. AuditHold now job_id w (hold_for now job_id ledger_id o w)) (sym e)
        (hold_some now job_id ledger_id a w b e)
]

abbrev charge_of : (user : ℕ) → Job → ℕ
charge_of user j = elim j.user_id [ none ↦ 0 | some u ↦ if user == u then j.charged_credits else 0 ]

-- What the jobs of a user are charged.
abbrev pub charged_sum : (user : ℕ) → List Job → ℕ
charged_sum user = sum_by (charge_of user)

-- Of every user: the books are sound, nothing is spent, and the credits held have grown by what the
-- added jobs of the user are charged.
pub record HoldsCharges (before after : AuditRows) : Type 0 where
  pub books : (u : ℕ) → Books (after.wallets u)
  pub balance :
      (u : ℕ) → balance_of (after.wallets u).account ≡ balance_of (before.wallets u).account
  pub held :
      (u : ℕ)
      → held_of (after.wallets u).account + charged_sum u before.jobs
        ≡ held_of (before.wallets u).account + charged_sum u after.jobs

abbrev AllBooks : AuditRows → Type 0
AllBooks r = (u : ℕ) → Books (r.wallets u)

HoldsCharges-trans : (r s t : AuditRows) → HoldsCharges r s → HoldsCharges s t → HoldsCharges r t
HoldsCharges-trans r s t h k = record {
  books = k.books;
  balance = λ u. k.balance u ∙ h.balance u;
  held = λ u. omega (arith, h.held u, k.held u);
}

-- A change of schedules and of the audit log only.
same_money :
    (r s : AuditRows) → AllBooks r → s.wallets ≡ r.wallets → s.jobs ≡ r.jobs → HoldsCharges r s
same_money r s b w j = record {
  books = λ u. rw w (b u);
  balance = λ u. rw w refl;
  held = λ u. rw (w, j) refl;
}

create_audit_job-HoldsCharges :
    (now : Now) (job_id : ℕ) (s : AuditSchedule) (v : Wallet) (r : AuditRows)
    → AllBooks r
    → HoldsJob job_id cost (r.wallets s.user_id) v
    → HoldsCharges r (create_audit_job now job_id s v r)
create_audit_job-HoldsCharges now job_id s v r b h = record {
  books = λ u. elim (Bool-cases (u == s.user_id)) [
    | inl hit ↦ rw hit h.books
    | inr miss ↦ rw miss (b u)
  ];
  balance = λ u. elim (Bool-cases (u == s.user_id)) [
    | inl hit ↦ let e : u ≡ s.user_id = ground arith in rw (hit, e) h.balance
    | inr miss ↦ rw miss refl
  ];
  held = λ u.
      let more =
        sum_by-append (charge_of u) r.jobs
          (scheduled_job job_id s.user_id now.time "website-audit" cost ∷ []) in
      elim (Bool-cases (u == s.user_id)) [
        | inl hit ↦ let e : u ≡ s.user_id = ground arith in ground (arith, more, hit, e, h.held)
        | inr miss ↦ rw (more, miss) (omega arith)
      ];
}

held_by_audit :
    (now : Now) (job_id : ℕ) (w v : Wallet)
    → AuditHold now job_id w (some v)
    → HoldsJob job_id cost w v
held_by_audit now job_id w v (inl (v', le, e, h)) =
    let same : v' ≡ v = cc in subst (HoldsJob job_id cost w) same h
held_by_audit now job_id w v (inr (less, e)) = cc

either_HoldsCharges :
    (r : AuditRows) (b : Bool) (p q : AuditRows × Bool)
    → HoldsCharges r p.0
    → HoldsCharges r q.0
    → HoldsCharges r (if b then p else q).0
either_HoldsCharges r true p q h k = h
either_HoldsCharges r false p q h k = k

audit_with-HoldsCharges :
    (now : Now) (tool : Bool) (job_id : ℕ) (s : AuditSchedule) (o : Option Wallet) (r : AuditRows)
    → AllBooks r
    → AuditHold now job_id (r.wallets s.user_id) o
    → HoldsCharges r (audit_with now tool job_id s o r).0
audit_with-HoldsCharges now tool job_id s none r b h = same_money r _ b refl refl
audit_with-HoldsCharges now false job_id s (some v) r b h = same_money r _ b refl refl
audit_with-HoldsCharges now true job_id s (some v) r b h =
    either_HoldsCharges r (not s.target_valid) _ _ (same_money r _ b refl refl)
      (create_audit_job-HoldsCharges now job_id s v r b (held_by_audit now job_id _ v h))

audit_site-HoldsCharges :
    (now : Now) (tool : Bool) (level : Option Level) (job_id ledger_id : ℕ) (s : AuditSchedule)
    (r : AuditRows)
    → AllBooks r
    → HoldsCharges r (audit_site now tool level job_id ledger_id s r).0
unfolding audit_site
audit_site-HoldsCharges now tool level job_id ledger_id s r b = elim (Bool-cases (not_pro level)) [
  | inl lapsed ↦ rw lapsed (same_money r _ b refl refl)
  | inr pro ↦ rw pro (
      audit_with-HoldsCharges now tool job_id s _ r b
        (hold_audit-AuditHold now job_id ledger_id (r.wallets s.user_id) (b s.user_id)))
]

audit_each-HoldsCharges :
    (run : AuditRun) (ss : List AuditSchedule) (r : AuditRows)
    → AllBooks r
    → HoldsCharges r (audit_each run ss r).0
unfolding audit_each
audit_each-HoldsCharges run [] r b = same_money r r b refl refl
audit_each-HoldsCharges run (s ∷ ss) r b =
    let one =
      audit_site-HoldsCharges run.now run.tool_available (run.levels s.user_id) (run.job_ids s.id)
        (run.ledger_ids s.id) s r b in
    HoldsCharges-trans r _ _ one (audit_each-HoldsCharges run ss _ one.books)

-- If the books of all wallets are sound, then after a run of the scheduled audits they still are;
-- no balance has changed, and of each user the credits held have grown by exactly what the jobs that
-- the run created for the user are charged.
pub generate_website_audit_schedules-HoldsCharges :
    (run : AuditRun) (r : AuditRows)
    → ((u : ℕ) → Books (r.wallets u))
    → HoldsCharges r (generate_website_audit_schedules run r).0
unfolding generate_website_audit_schedules
generate_website_audit_schedules-HoldsCharges run r b =
    audit_each-HoldsCharges run
      (limit 50 (due_rows (λ s. s.next_run_at) (λ s. s.active) run.now.date r.schedules)) r b
