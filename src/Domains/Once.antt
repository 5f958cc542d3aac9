-- ===== src/Domains/Once.antt =====
-- An expiry is mailed once (`check_domain_expiry_alert` of backend/src/rendercart/jobs/tasks.py).
use render_cart.Prelude.{
  ℕ, ◌+◌, ◌≤◌, ◌≡◌, ◌⊎◌, refl, inl, inr, Bool, true, false, none, some, List, [], ◌∷◌, All, sum_by,
  sum_by-append, arith,
}
use render_cart.Domains.{
  DomainAlert, DomainRun, Mail, expiry_of, same_time, mail_of, plan_check, record_lookups,
  send_alert, look_up,
}

-- Checks of an alert one after the other.
abbrev pub look_up_all : List DomainRun → DomainAlert × List Mail → DomainAlert × List Mail
look_up_all [] st = st
look_up_all (run ∷ runs) st = look_up_all runs (look_up run st.0 st.1)

-- A check that finds no TLS expiry or the given one, and whose mail, if any, goes out.
pub record Sees (t : ℕ) (run : DomainRun) : Type 0 where
  pub expiry : (expiry_of run.tls ≡ none) ⊎ (expiry_of run.tls ≡ some t)
  pub mails_out : run.mail_works ≡ true

abbrev one_if : Bool → ℕ
one_if true = 1
one_if false = 0

-- How many mails name a TLS expiry, and whether it was alerted.
abbrev pub tls_mentions : ℕ → List Mail → ℕ
tls_mentions t = sum_by (λ m. one_if (same_time m.tls_expiry t))

abbrev pub alerted : ℕ → DomainAlert → ℕ
alerted t a = one_if (same_time a.tls_alerted_expiry t)

-- The mail of a check names the expiry exactly if the check marks it as alerted.
send_alert-mentions :
    (t : ℕ) (run : DomainRun) (a : DomainAlert) (mails : List Mail)
    → Sees t run
    → let (a', mails') = send_alert run a mails in
      tls_mentions t mails' + alerted t a ≡ tls_mentions t mails + alerted t a'
unfolding send_alert
send_alert-mentions t run a mails h =
    let more =
      sum_by-append (λ (m : Mail). one_if (same_time m.tls_expiry t)) mails (mail_of run a ∷ []) in
    elim h.expiry [
      | inl e ↦ ground (arith, e, h.mails_out, more)
      | inr e ↦ ground (arith, e, h.mails_out, more)
    ]

look_up-mentions :
    (t : ℕ) (run : DomainRun) (a : DomainAlert) (mails : List Mail)
    → Sees t run
    → let (a', mails') = look_up run a mails in
      tls_mentions t mails' + alerted t a ≡ tls_mentions t mails + alerted t a'
unfolding look_up record_lookups
look_up-mentions t run a mails h =
    send_alert-mentions t run (record_lookups run (plan_check run a)) mails h

alerted-le : (t : ℕ) (a : DomainAlert) → alerted t a ≤ 1
alerted-le t a = ground arith

look_up_all-mentions :
    (t : ℕ) (runs : List DomainRun) (a : DomainAlert) (mails : List Mail)
    → All (Sees t) runs
    → let (a', mails') = look_up_all runs (a, mails) in
      tls_mentions t mails' + alerted t a ≡ tls_mentions t mails + alerted t a'
look_up_all-mentions t [] a mails h = refl
look_up_all-mentions t (run ∷ runs) a mails h =
    let st = look_up run a mails in
    omega (arith, look_up-mentions t run a mails h.0, look_up_all-mentions t runs st.0 st.1 h.1)

-- A TLS expiry is mailed at most once: over any checks that find this expiry or none, and whose
-- mails go out, at most one more mail names it, and none if it was alerted before.
pub look_up_all-once :
    (t : ℕ) (runs : List DomainRun) (a : DomainAlert) (mails : List Mail)
    → All (Sees t) runs
    → tls_mentions t (look_up_all runs (a, mails)).1 + alerted t a ≤ tls_mentions t mails + 1
look_up_all-once t runs a mails h =
    omega
      (arith, look_up_all-mentions t runs a mails h, alerted-le t (look_up_all runs (a, mails)).0)
