-- ===== src/Credits/Books/Dynamic.antt =====
-- The reservation of a cost that is known only when the job runs.
use render_cart.Prelude.{
  ℕ, suc, ◌+◌, ◌≤◌, ◌<◌, ◌≡◌, ◌⊎◌, refl, sym, ap, subst, ◌∙◌, inl, inr, true, Option, none, some,
  arith, ◌==◌, leb, if◌then◌else◌, Option-cases, Bool-cases,
}
use render_cart.Prelude.Int.{pos, pos-sub}
use render_cart.Credits.{
  Account, Wallet, Result, ok, err, insufficient_credits, free_sum, held_sum, remaining_sum,
  usable_lots, balance_of, held_of,
}
use render_cart.Credits.Reserve.{
  allocate, commit_hold, with_hold, short_of, reserve_dynamic_credits, charge,
}
use render_cart.Credits.Settle.{finish_credits, settle_credit_reservations, spend_account}
use render_cart.Credits.Allocation.{allocate_sums}
use render_cart.Credits.Books.{Books}
use render_cart.Credits.Books.Usable.{free_sum-usable_lots}
use render_cart.Credits.Books.Settling.{held_by_job, settle_job-Settled}
use render_cart.Credits.Books.Holding.{
  HoldsJob, shares_of, allocated-HoldsJob, short_of-free_sum, FreshJob,
}
use render_cart.Credits.Books.Outcome.{
  commit_fresh, no_account_no_credits, reserve_dynamic-some, reserve_dynamic-none,
}

abbrev pub DynamicOutcome : (job now cost charged : ℕ) → Wallet → Result Wallet × ℕ → Type 0
DynamicOutcome job now cost charged w r =
    ((v : Wallet) × (cost ≤ free_sum (usable_lots now w.lots))
      × (r ≡ (ok v, cost))
      × HoldsJob job cost w v)
    ⊎ ((free_sum (usable_lots now w.lots) < cost) × (r ≡ (err insufficient_credits, charged)))

dynamic_some :
    (job ledger_id now n charged : ℕ) (a : Account) (w : Wallet)
    → Books w
    → FreshJob job w
    → w.account ≡ some a
    → DynamicOutcome job now
        (suc n)
        charged
        w
        (reserve_dynamic_credits true job ledger_id now (suc n) charged w)
dynamic_some job ledger_id now n charged a w b f e =
    let sums = allocate_sums (suc n) (usable_lots now w.lots) in
    let usable_le = free_sum-usable_lots now w.lots in
    rw
      (
        reserve_dynamic-some job ledger_id now n w a charged e,
        short_of-free_sum (suc n) a w b e,
        commit_fresh job ledger_id now (suc n) a w f,
      )
      (elim (Bool-cases (leb (suc n) (free_sum (usable_lots now w.lots)))) [
        | inl enough ↦
            let le : suc n ≤ free_sum (usable_lots now w.lots) = ground arith in
            inl (
              with_hold job ledger_id (suc n) (shares_of now (suc n) w) a w,
              le,
              ground arith,
              allocated-HoldsJob job ledger_id now (suc n) a w b e le,
            )
        | inr short ↦ inr (ground arith)
      ])

-- For a job that holds nothing yet, the reservation of its computed cost is granted exactly when
-- the unexpired lots have it free, and then the job is charged that cost; else nothing changes.
pub reserve_dynamic_credits-DynamicOutcome :
    (job ledger_id now n charged : ℕ) (w : Wallet)
    → Books w
    → FreshJob job w
    → DynamicOutcome job now
        (suc n)
        charged
        w
        (reserve_dynamic_credits true job ledger_id now (suc n) charged w)
reserve_dynamic_credits-DynamicOutcome job ledger_id now n charged w b f =
    elim (Option-cases w.account) [
      | inl e ↦
          let empty = no_account_no_credits w b e in
          let usable_le = free_sum-usable_lots now w.lots in
          inr (omega arith, reserve_dynamic-none job ledger_id now n w charged e)
      | inr (a, e) ↦ dynamic_some job ledger_id now n charged a w b f e
    ]

commit_hold-ok :
    (job ledger_id cost : ℕ) (a : Account) (w v : Wallet) (now : ℕ)
    → commit_hold job ledger_id cost (shares_of now cost w) a w ≡ ok v
    → with_hold job ledger_id cost (shares_of now cost w) a w ≡ v
unfolding commit_hold
commit_hold-ok job ledger_id cost a w v now r = ground arith

charge-ok :
    (cost charged c : ℕ) (r : Result Wallet) (v : Wallet)
    → charge cost charged r ≡ (ok v, c)
    → (r ≡ ok v) × (c ≡ cost)
charge-ok cost charged c (ok u) v e = ground arith
charge-ok cost charged c (err x) v e = ground arith

-- Also a job that holds credits already may reserve more, if no lot of the two holds is the same.
pub reserve_dynamic_credits-HoldsJob :
    (job ledger_id now n charged c : ℕ) (w v : Wallet)
    → Books w
    → reserve_dynamic_credits true job ledger_id now (suc n) charged w ≡ (ok v, c)
    → HoldsJob job (suc n) w v × (c ≡ suc n)
reserve_dynamic_credits-HoldsJob job ledger_id now n charged c w v b r =
    elim (Option-cases w.account) [
      | inl e ↦ ground (arith, reserve_dynamic-none job ledger_id now n w charged e)
      | inr (a, e) ↦ known a e (sym (reserve_dynamic-some job ledger_id now n w a charged e) ∙ r)
    ]
  where
    granted :
        (a : Account)
        → w.account ≡ some a
        → (allocate (suc n) (usable_lots now w.lots)).1 ≡ 0
        → charge (suc n) charged (commit_hold job ledger_id (suc n) (shares_of now (suc n) w) a w)
          ≡ (ok v, c)
        → HoldsJob job (suc n) w v × (c ≡ suc n)
    granted a e none_left g =
        let (committed, charged_now) = charge-ok (suc n) charged c _ v g in
        let sums = allocate_sums (suc n) (usable_lots now w.lots) in
        (
          subst (HoldsJob job (suc n) w) (commit_hold-ok job ledger_id (suc n) a w v now committed)
              (allocated-HoldsJob job ledger_id now (suc n) a w b e (omega arith)),
          charged_now,
        )

    known :
        (a : Account)
        → w.account ≡ some a
        → (if short_of (suc n) a
            then (err insufficient_credits, charged)
            else if (allocate (suc n) (usable_lots now w.lots)).1 == 0
            then charge
                (suc n)
                charged
                (commit_hold job ledger_id (suc n) (shares_of now (suc n) w) a w)
            else (err insufficient_credits, charged))
          ≡ (ok v, c)
        → HoldsJob job (suc n) w v × (c ≡ suc n)
    known a e g = elim (Bool-cases (short_of (suc n) a)) [
      | inl short ↦ ground arith
      | inr enough ↦ elim (Bool-cases ((allocate (suc n) (usable_lots now w.lots)).1 == 0)) [
        | inl all_held ↦ granted a e (ground arith) (rw (enough, all_held) at g)
        | inr lacking ↦ ground arith
      ]
    ]

-- The account and the lots differ by `n`: so many credits are gone from the lots and still stand
-- in the balance, held by no job.
pub record OffBy (n : ℕ) (w : Wallet) : Type 0 where
  pub balance : balance_of w.account ≡ pos (remaining_sum w.lots + n)
  pub held : held_of w.account ≡ held_sum w.lots + n

undercharged_account :
    (ledger_id job n extra : ℕ) (o : Option Account) (w v : Wallet)
    → w.account ≡ o
    → Books w
    → remaining_sum v.lots + (extra + suc n) ≡ remaining_sum w.lots
    → held_sum v.lots + (extra + suc n) ≡ held_sum w.lots
    → OffBy extra (spend_account ledger_id job (suc n) o v)
undercharged_account ledger_id job n extra none w v e b er eh = absurd (ground (arith, b.held))
undercharged_account ledger_id job n extra (some a) w v e b er eh =
    let balanced : a.balance ≡ pos (remaining_sum w.lots) = rw e at b.balanced in
    let held : a.held ≡ held_sum w.lots = rw e at b.held in
    record {
      balance =
          rw (balanced, pos-sub (remaining_sum w.lots) (suc n) (omega arith))
            (ap pos (omega arith));
      held = omega arith;
    }

-- A job that holds credits from its creation (`earlier`) and reserves its computed cost on top is
-- charged the computed cost alone: after it finishes, the lots have lost both amounts, while the
-- account has lost one and holds the other for good.
pub finish_after_two_holds :
    (job hold_id spend_id now n earlier c : ℕ) (w v : Wallet)
    → Books w
    → held_by_job job w ≡ earlier
    → reserve_dynamic_credits true job hold_id now (suc n) earlier w ≡ (ok v, c)
    → OffBy earlier (finish_credits spend_id job c v)
unfolding finish_credits
finish_after_two_holds job hold_id spend_id now n earlier c w v b e r =
    let (h, charged) = reserve_dynamic_credits-HoldsJob job hold_id now n earlier c w v b r in
    let s = settle_job-Settled true job v h.books in
    rw charged (
      undercharged_account spend_id job n earlier v.account v
        (settle_credit_reservations true job v) refl h.books
        (omega (arith, s.remaining, h.reserved)) (omega (arith, s.held, h.reserved)))
