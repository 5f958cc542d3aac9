-- ===== src/Credits/Grant.antt =====
-- Credits that come and go without a job: `_grant_credits` and `_process_refund` (billing/router.py),
-- the grants of an admin and of the command line, and `expire_credits` (jobs/tasks.py).
use text.Mathlib.Text.{◌==◌ as str_eq}
use render_cart.Prelude.{
  ℕ, ◌-◌, min, String, Bool, false, ◌&&◌, Option, none, some, List, [], ◌∷◌, ◌++◌, ltb, leb, ◌==◌,
  if◌then◌else◌, any_of, filter_by, length,
}
use render_cart.Prelude.Int.{pos, pos_part, ◌+ℤ◌, ◌-ℤ◌}
use render_cart.Credits.{Account, Lot, Entry, Wallet, update_lot, balance_of, held_of, order_lots}

-- What a grant is for: the ids of the two rows that it adds, which are fresh UUIDs, and the time.
pub record Grant : Type 0 where
  pub ledger_id : ℕ
  pub lot_id : ℕ
  pub created_at : ℕ
  pub amount : ℕ
  pub kind : String
  pub reference_id : Option String
  pub expires_at : Option ℕ

abbrev pub same_reference : Option String → Option String → Bool
same_reference none r = false
same_reference (some s) none = false
same_reference (some s) (some t) = str_eq s t

abbrev pub has_reference : Option String → List Entry → Bool
has_reference r ledger = any_of (λ e. same_reference r e.reference_id) ledger

-- A missing account is created with nothing in it.
abbrev pub add_balance : ℕ → Option Account → Account
add_balance amount o = record { balance = balance_of o +ℤ pos amount; held = held_of o }

abbrev pub granted_lot : Grant → Lot
granted_lot g = record {
  id = g.lot_id;
  source_ledger_id = g.ledger_id;
  total = g.amount;
  remaining = g.amount;
  held = 0;
  expires_at = g.expires_at;
  created_at = g.created_at;
}

abbrev pub granted_entry : Grant → Entry
granted_entry g = record {
  id = g.ledger_id;
  job_id = none;
  amount = pos g.amount;
  kind = g.kind;
  reference_id = g.reference_id;
  expires_at = g.expires_at;
}

-- The rows of a grant, as all three functions write them.
unfoldable pub add_grant : Grant → Wallet → Wallet
add_grant g w = record w {
  account = some (add_balance g.amount w.account);
  lots = w.lots ++ granted_lot g ∷ [];
  ledger = w.ledger ++ granted_entry g ∷ [];
}

-- `_grant_credits`: a reference that the ledger has already is not granted again.
unfoldable pub grant_credits : Grant → Wallet → Wallet
unfolding add_grant
grant_credits g w = if has_reference g.reference_id w.ledger then w else add_grant g w

-- `grant_user_credits` (admin/router.py), and `_grant_credits` of cli.py for an amount that is
-- positive: no reference, and no expiry.
unfoldable pub grant_user_credits : (ledger_id lot_id created_at amount : ℕ) → Wallet → Wallet
unfolding add_grant
grant_user_credits ledger_id lot_id created_at amount w =
    add_grant
      (record {
        ledger_id = ledger_id;
        lot_id = lot_id;
        created_at = created_at;
        amount = amount;
        kind = "grant";
        reference_id = none;
        expires_at = none;
      })
      w

-- `max(0, account.balance - account.held)`
abbrev pub unheld : Account → ℕ
unheld a = pos_part (a.balance -ℤ pos a.held)

abbrev pub debit_entry : (id debit : ℕ) → String → Option String → Entry
debit_entry id debit kind reference = record {
  id = id;
  job_id = none;
  amount = pos 0 -ℤ pos debit;
  kind = kind;
  reference_id = reference;
  expires_at = none;
}

-- `account.balance -= debit`, with a ledger row only if something is debited.
unfoldable pub debit_account : Account → (debit : ℕ) → Entry → Wallet → Wallet
debit_account a debit entry w = record w {
  account = some (record a { balance = a.balance -ℤ pos debit });
  ledger = if ltb 0 debit then w.ledger ++ entry ∷ [] else w.ledger;
}

abbrev pub drop_unheld : Lot → Lot
drop_unheld l = record l { remaining = l.held }

-- `expires_at <= now and remaining > held`; a comparison with NULL does not hold.
abbrev pub lapsed : Option ℕ → ℕ → Bool
lapsed none now = false
lapsed (some t) now = leb t now

abbrev pub expirable : ℕ → Lot → Bool
expirable now l = lapsed l.expires_at now && ltb l.held l.remaining

abbrev pub expire_debit : ℕ → Account → ℕ
expire_debit amount a = min amount (unheld a)

-- The formatted references and the fresh ledger ids of `expire_credits`.
pub record ExpiryNames : Type 0 where
  pub reference : (lot_id previous_remaining : ℕ) → String
  pub ledger_id : (lot_id : ℕ) → ℕ

-- One round of the loop of `expire_credits`.
unfoldable pub expire_lot : ExpiryNames → Lot → Wallet → Wallet
unfolding debit_account
expire_lot names l w = elim w.account [
  | none ↦ record w { lots = update_lot l.id drop_unheld w.lots }
  | some a ↦
      let debit = expire_debit (l.remaining - l.held) a in
      debit_account a debit
        (debit_entry (names.ledger_id l.id) debit "expire"
          (some (names.reference l.id l.remaining)))
        (record w { lots = update_lot l.id drop_unheld w.lots })
]

unfoldable pub expire_lots : ExpiryNames → List Lot → Wallet → Wallet
unfolding expire_lot
expire_lots names [] w = w
expire_lots names (l ∷ ls) w = expire_lots names ls (expire_lot names l w)

-- `expire_credits`, with the number of lots that it returns. Of lots that expire together the
-- query fixes no order; the model takes the older first.
unfoldable pub expire_credits : ExpiryNames → (now : ℕ) → Wallet → Wallet × ℕ
unfolding expire_lots
expire_credits names now w =
    let lots = order_lots (filter_by (expirable now) w.lots) in
    (expire_lots names lots w, length lots)

-- The lot that a reference paid for: the join of the lots with their ledger rows.
abbrev pub reference_of : ℕ → List Entry → Option String
reference_of i [] = none
reference_of i (e ∷ es) = if e.id == i then e.reference_id else reference_of i es

abbrev pub lot_of_reference : String → List Entry → List Lot → Option Lot
lot_of_reference r ledger [] = none
lot_of_reference r ledger (l ∷ ls) =
    if same_reference (some r) (reference_of l.source_ledger_id ledger)
    then some l
    else lot_of_reference r ledger ls

abbrev pub revoke : ℕ → Lot → Lot
revoke now l = record l { remaining = l.held; expires_at = some now }

-- The credit block of `_process_refund`; `source` is the reference of the grant.
unfoldable pub refund_credits : (source refund : String) → (ledger_id now : ℕ) → Wallet → Wallet
unfolding debit_account
refund_credits source refund ledger_id now w = elim (lot_of_reference source w.ledger w.lots) [
  | none ↦ w
  | some l ↦ elim w.account [
    | none ↦ w
    | some a ↦
        let debit = expire_debit (l.remaining - l.held) a in
        debit_account a debit (debit_entry ledger_id debit "refund" (some refund))
          (record w { lots = update_lot l.id (revoke now) w.lots })
  ]
]
