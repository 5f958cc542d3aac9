-- ===== src/Credits/Ledger/Holds.antt =====
-- What the holds of a job (jobs/router.py and jobs/tasks.py in backend/src/rendercart) write to the
-- ledger.
use render_cart.Prelude.{
  ℕ, zero, suc, ◌≡◌, refl, sym, ap, ◌∙◌, inl, inr, Bool, true, false, some, List, ◌==◌, Bool-cases,
  Option-cases,
}
use render_cart.Credits.{
  Account, Wallet, Result, ok, err, balance_of, usable_lots, not_enough_credits,
  not_enough_unexpired_credits, insufficient_credits,
}
use render_cart.Credits.Reserve.{
  Share, hold_credits, reserve_dynamic_credits, commit_hold, charge, short_of, hold_loop, allocate,
  clashes, reservation_rows,
}
use render_cart.Credits.Ledger.{ledger_sum, Explained, or_back, entry_added, unchanged}

commit_hold-Explained :
    (job ledger_id cost : ℕ) (shares : List Share) (a : Account) (w : Wallet)
    → w.account ≡ some a
    → Explained w
    → Explained (or_back w (commit_hold job ledger_id cost shares a w))
unfolding commit_hold
commit_hold-Explained job ledger_id cost shares a w e x =
    elim (Bool-cases (clashes (reservation_rows job shares) w.reservations)) [
      | inl clash ↦ rw clash x
      | inr new ↦
          let is : a.balance ≡ ledger_sum w.ledger = sym (ap balance_of e) ∙ x in
          rw new (entry_added a.balance a.balance w.ledger _ is (unchanged a.balance))
    ]

pub same_result :
    (w : Wallet) (r s : Result Wallet) → r ≡ s → Explained (or_back w s) → Explained (or_back w r)
same_result w r s e x = rw e x

pub hold_credits-Explained :
    (signed_in : Bool) (job ledger_id now cost : ℕ) (w : Wallet)
    → Explained w
    → Explained (or_back w (hold_credits signed_in job ledger_id now cost w))
unfolding hold_credits
hold_credits-Explained signed_in job ledger_id now zero w x = x
hold_credits-Explained false job ledger_id now (suc n) w x = x
hold_credits-Explained true job ledger_id now (suc n) w x = elim (Option-cases w.account) [
  | inl e ↦
      same_result w (hold_credits true job ledger_id now (suc n) w) (err not_enough_credits)
        (rw e refl) x
  | inr (a, e) ↦ elim (Bool-cases (short_of (suc n) a)) [
    | inl short ↦
        same_result w (hold_credits true job ledger_id now (suc n) w) (err not_enough_credits)
          (rw (e, short) refl) x
    | inr enough ↦
        let (shares, left) = hold_loop (suc n) (usable_lots now w.lots) in
        elim (Bool-cases (left == 0)) [
          | inl all ↦
              same_result w (hold_credits true job ledger_id now (suc n) w)
                (commit_hold job ledger_id (suc n) shares a w) (rw (e, enough, all) refl)
                (commit_hold-Explained job ledger_id (suc n) shares a w e x)
          | inr rest ↦
              same_result w (hold_credits true job ledger_id now (suc n) w)
                (err not_enough_unexpired_credits) (rw (e, enough, rest) refl) x
        ]
  ]
]

either_charge :
    (w : Wallet) (cost charged : ℕ) (r : Result Wallet)
    → Explained (or_back w r)
    → Explained (or_back w (charge cost charged r).0)
either_charge w cost charged (ok v) x = x
either_charge w cost charged (err e) x = x

pub reserve_dynamic_credits-Explained :
    (has_user : Bool) (job ledger_id now cost charged : ℕ) (w : Wallet)
    → Explained w
    → Explained (or_back w (reserve_dynamic_credits has_user job ledger_id now cost charged w).0)
unfolding reserve_dynamic_credits
reserve_dynamic_credits-Explained has_user job ledger_id now zero charged w x = x
reserve_dynamic_credits-Explained false job ledger_id now (suc n) charged w x = x
reserve_dynamic_credits-Explained true job ledger_id now (suc n) charged w x =
    elim (Option-cases w.account) [
      | inl e ↦
          same_result w (reserve_dynamic_credits true job ledger_id now (suc n) charged w).0
            (err insufficient_credits) (rw e refl) x
      | inr (a, e) ↦ elim (Bool-cases (short_of (suc n) a)) [
        | inl short ↦
            same_result w (reserve_dynamic_credits true job ledger_id now (suc n) charged w).0
              (err insufficient_credits) (rw (e, short) refl) x
        | inr enough ↦
            let (shares, left) = allocate (suc n) (usable_lots now w.lots) in
            elim (Bool-cases (left == 0)) [
              | inl all ↦
                  let r = commit_hold job ledger_id (suc n) shares a w in
                  same_result w (reserve_dynamic_credits true job ledger_id now (suc n) charged w).0
                    (charge (suc n) charged r).0 (rw (e, enough, all) refl)
                    (either_charge w (suc n) charged r
                      (commit_hold-Explained job ledger_id (suc n) shares a w e x))
              | inr rest ↦
                  same_result w (reserve_dynamic_credits true job ledger_id now (suc n) charged w).0
                    (err insufficient_credits) (rw (e, enough, rest) refl) x
            ]
      ]
    ]
