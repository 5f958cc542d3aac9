-- ===== src/Credits/Single.antt =====
-- The single credit of a document question (`create_chat_question` of
-- backend/src/rendercart/jobs/router.py) is held as `create_job` would hold it.
use render_cart.Prelude.{
  ℕ, ◌≡◌, refl, inl, inr, true, none, some, List, [], ◌∷◌, arith, Option-cases,
}
use render_cart.Credits.{Lot, Wallet, usable_lots}
use render_cart.Credits.Reserve.{hold_loop, first_free, hold_credits, hold_question_credit}

hold_loop-none : (ls : List Lot) → first_free ls ≡ none → hold_loop 1 ls ≡ ([], 1)
unfolding hold_loop first_free
hold_loop-none [] e = refl
hold_loop-none (l ∷ ls) e = ground (arith, hold_loop-none ls)

hold_loop-some :
    (ls : List Lot) (l : Lot) → first_free ls ≡ some l → hold_loop 1 ls ≡ ((l.id, 1) ∷ [], 0)
unfolding hold_loop first_free
hold_loop-some [] l e = absurd (ground arith)
hold_loop-some (k ∷ ls) l e = ground (arith, hold_loop-some ls l)

-- The hold of a question is the hold of one credit: with the same errors, on the same lot.
pub hold_question_credit-eq-hold_credits :
    (job ledger_id now : ℕ) (w : Wallet)
    → hold_question_credit job ledger_id now w ≡ hold_credits true job ledger_id now 1 w
unfolding hold_question_credit hold_credits
hold_question_credit-eq-hold_credits job ledger_id now w = elim (Option-cases w.account) [
  | inl e ↦ rw e refl
  | inr (a, e) ↦ elim (Option-cases (first_free (usable_lots now w.lots))) [
    | inl f ↦ rw (e, f, hold_loop-none (usable_lots now w.lots) f) refl
    | inr (l, f) ↦ rw (e, f, hold_loop-some (usable_lots now w.lots) l f) refl
  ]
]
