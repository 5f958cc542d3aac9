-- ===== src/Credits/Ledger.antt =====
-- The ledger of a wallet explains its balance (the rows of jobs/models.py in
-- backend/src/rendercart).
pub mod Holds
pub mod Debits
pub mod Histories
use render_cart.Prelude.{◌≡◌, sym, ap, ◌∙◌, some, List, [], ◌∷◌, ◌++◌}
use render_cart.Prelude.Int.{ℤ, pos, ◌+ℤ◌, int_laws}
use render_cart.Credits.{Account, Entry, Wallet, Result, ok, err, balance_of}

abbrev pub ledger_sum : List Entry → ℤ
ledger_sum [] = pos 0
ledger_sum (e ∷ es) = e.amount +ℤ ledger_sum es

-- The balance is the sum of the ledger.
abbrev pub Explained : Wallet → Type 0
Explained w = balance_of w.account ≡ ledger_sum w.ledger

-- An error rolls the wallet back.
abbrev pub or_back : Wallet → Result Wallet → Wallet
or_back w (ok v) = v
or_back w (err e) = w

ledger_sum-snoc :
    (es : List Entry) (e : Entry) → ledger_sum (es ++ e ∷ []) ≡ ledger_sum es +ℤ e.amount
ledger_sum-snoc [] e = grind int_laws
ledger_sum-snoc (x ∷ es) e = grind (int_laws, ledger_sum-snoc es e)

-- A row of the amount by which the balance changes.
pub entry_added :
    (before after : ℤ) (es : List Entry) (e : Entry)
    → before ≡ ledger_sum es
    → after ≡ before +ℤ e.amount
    → after ≡ ledger_sum (es ++ e ∷ [])
entry_added before after es e x moved =
    moved ∙ ap (λ z. z +ℤ e.amount) x ∙ sym (ledger_sum-snoc es e)

pub unchanged : (z : ℤ) → z ≡ z +ℤ pos 0
unchanged z = grind int_laws

-- The account as the steps below find it.
pub is_balance :
    (w : Wallet) (a : Account) → w.account ≡ some a → Explained w → a.balance ≡ ledger_sum w.ledger
is_balance w a e x = sym (ap balance_of e) ∙ x
