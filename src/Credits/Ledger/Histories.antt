-- ===== src/Credits/Ledger/Histories.antt =====
-- What happens to the wallet of a user, in any order: the operations of jobs/router.py,
-- jobs/tasks.py and billing/router.py in backend/src/rendercart.
use render_cart.Prelude.{ℕ, String, Bool, true, none, List, [], ◌∷◌, filter_by}
use render_cart.Credits.{Wallet, order_lots}
use render_cart.Credits.Reserve.{hold_credits, hold_question_credit, reserve_dynamic_credits}
use render_cart.Credits.Settle.{finish_credits, release_credits}
use render_cart.Credits.Grant.{
  Grant, expirable, ExpiryNames, grant_credits, grant_user_credits, expire_credits, refund_credits,
}
use render_cart.Credits.Single.{hold_question_credit-eq-hold_credits}
use render_cart.Credits.Ledger.{Explained, or_back}
use render_cart.Credits.Ledger.Holds.{
  hold_credits-Explained, reserve_dynamic_credits-Explained, same_result,
}
use render_cart.Credits.Ledger.Debits.{
  finish_credits-Explained, release_credits-Explained, add_grant-Explained, grant_credits-Explained,
  expire_lots-Explained, refund_credits-Explained,
}

-- What may happen to the wallet of a user, but for the SMS of the monitors.
pub data Operation : Type 0 where
  hold : (signed_in : Bool) → (job ledger_id now cost : ℕ) → Operation
  hold_question : (job ledger_id now : ℕ) → Operation
  reserve : (has_user : Bool) → (job ledger_id now cost charged : ℕ) → Operation
  finish : (ledger_id job cost : ℕ) → Operation
  release : (ledger_id job cost : ℕ) → Operation
  grant : Grant → Operation
  grant_user : (ledger_id lot_id created_at amount : ℕ) → Operation
  expire : ExpiryNames → (now : ℕ) → Operation
  refund : (source refund : String) → (ledger_id now : ℕ) → Operation

abbrev pub operate : Operation → Wallet → Wallet
operate (hold signed_in job ledger_id now cost) w =
    or_back w (hold_credits signed_in job ledger_id now cost w)
operate (hold_question job ledger_id now) w = or_back w (hold_question_credit job ledger_id now w)
operate (reserve has_user job ledger_id now cost charged) w =
    or_back w (reserve_dynamic_credits has_user job ledger_id now cost charged w).0
operate (finish ledger_id job cost) w = finish_credits ledger_id job cost w
operate (release ledger_id job cost) w = release_credits ledger_id job cost w
operate (grant g) w = grant_credits g w
operate (grant_user ledger_id lot_id created_at amount) w =
    grant_user_credits ledger_id lot_id created_at amount w
operate (expire names now) w = (expire_credits names now w).0
operate (refund source reference ledger_id now) w = refund_credits source reference ledger_id now w

abbrev pub operate_all : List Operation → Wallet → Wallet
operate_all [] w = w
operate_all (o ∷ os) w = operate_all os (operate o w)

operate-Explained : (o : Operation) (w : Wallet) → Explained w → Explained (operate o w)
unfolding grant_user_credits expire_credits
operate-Explained (hold signed_in job ledger_id now cost) w x =
    hold_credits-Explained signed_in job ledger_id now cost w x
operate-Explained (hold_question job ledger_id now) w x =
    same_result w (hold_question_credit job ledger_id now w)
      (hold_credits true job ledger_id now 1 w)
      (hold_question_credit-eq-hold_credits job ledger_id now w)
      (hold_credits-Explained true job ledger_id now 1 w x)
operate-Explained (reserve has_user job ledger_id now cost charged) w x =
    reserve_dynamic_credits-Explained has_user job ledger_id now cost charged w x
operate-Explained (finish ledger_id job cost) w x = finish_credits-Explained ledger_id job cost w x
operate-Explained (release ledger_id job cost) w x =
    release_credits-Explained ledger_id job cost w x
operate-Explained (grant g) w x = grant_credits-Explained g w x
operate-Explained (grant_user ledger_id lot_id created_at amount) w x =
    add_grant-Explained
      (record {
        ledger_id = ledger_id;
        lot_id = lot_id;
        created_at = created_at;
        amount = amount;
        kind = "grant";
        reference_id = none;
        expires_at = none;
      })
      w x
operate-Explained (expire names now) w x =
    expire_lots-Explained names (order_lots (filter_by (expirable now) w.lots)) w x
operate-Explained (refund source reference ledger_id now) w x =
    refund_credits-Explained source reference ledger_id now w x

-- The ledger explains the balance: if the balance is the sum of the amounts in the ledger, it
-- still is after any sequence of holds, settlements, grants, expiries and refunds, in any order,
-- whether they succeed or fail, and whether the books are sound or not.
pub operate_all-Explained :
    (os : List Operation) (w : Wallet) → Explained w → Explained (operate_all os w)
operate_all-Explained [] w x = x
operate_all-Explained (o ∷ os) w x =
    operate_all-Explained os (operate o w) (operate-Explained o w x)
