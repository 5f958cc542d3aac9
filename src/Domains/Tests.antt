-- ===== src/Domains/Tests.antt =====
-- A certificate that is about to expire, requests of one user, and the laws at these inputs.
use render_cart.Prelude.{
  ℕ, ◌+◌, ◌≤◌, ◌≡◌, refl, inl, inr, true, false, map, none, List, [], ◌∷◌, length,
}
use render_cart.Access.{Level}
use render_cart.Domains.{DomainRows, DomainAlert, DomainRun, Lookup, found, fails, look_up}
use render_cart.Domains.Once.{look_up_all, tls_mentions, alerted, look_up_all-once}
use render_cart.Domains.Handlers.{DomainCaller, create_domain_alert, update_domain_alert}
use render_cart.Domains.Distinct.{Request, create, switch, Orderly, serve_all, serve_all-Orderly}

abbrev alert : DomainAlert
alert = record {
  id = 1;
  domain = "example.com";
  active = true;
  interval_seconds = 86400;
  next_check_at = 0;
  last_checked_at = none;
  tls_expires_at = none;
  domain_expires_at = none;
  tls_error_code = none;
  domain_error_code = none;
  tls_alerted_expiry = none;
  domain_alerted_expiry = none;
}

abbrev run_at : (now : ℕ) → Lookup → DomainRun
run_at now tls = record {
  now = now;
  checked_at = now;
  level = Level.pro;
  tls = tls;
  domain = fails;
  mail_works = true;
}

abbrev runs : List DomainRun
runs = run_at 10 (found 5000) ∷ run_at 86410 fails ∷ run_at 172810 (found 5000) ∷ []

one_mail : length (look_up_all runs (alert, [])).1 ≡ 1
unfolding look_up
one_mail = refl

look_up_all-once_example :
    tls_mentions 5000 (look_up_all runs (alert, [])).1 + alerted 5000 alert
    ≤ tls_mentions 5000 [] + 1
look_up_all-once_example = look_up_all-once 5000 runs alert [] (
  record { expiry = inr refl; mails_out = refl },
  (
    record { expiry = inl refl; mails_out = refl },
    (record { expiry = inr refl; mails_out = refl }, tt),
  ),
)

abbrev caller_at : Level → (now : ℕ) → DomainCaller
caller_at level now = record { is_banned = false; email_verified = true; level = level; now = now }

abbrev no_alerts : DomainRows
no_alerts = record { alerts = []; audit_log = []; mails = [] }

-- On the free plan one alert, for a day pass a second domain, and no domain twice.
abbrev requests : List (DomainCaller × Request)
requests =
    (caller_at Level.free 10, create 1 "example.com")
    ∷ (caller_at Level.free 20, create 2 "example.org")
    ∷ (caller_at Level.day_pass 30, create 3 "example.com")
    ∷ (caller_at Level.day_pass 40, create 4 "example.org")
    ∷ (caller_at Level.free 50, switch 4 false)
    ∷ []

served : map (λ a. a.id) (serve_all requests no_alerts).alerts ≡ 1 ∷ 4 ∷ []
unfolding create_domain_alert update_domain_alert
served = refl

serve_all-Orderly_example : Orderly 2 no_alerts (serve_all requests no_alerts)
serve_all-Orderly_example = serve_all-Orderly requests no_alerts tt
