-- ===== src/Auth/Tests.antt =====
-- A user with a link and a password, and the laws of links and of the staff guard at this user.
use text.Mathlib.Text.{◌==◌ as str_eq}
use render_cart.Prelude.{ℕ, ◌≡◌, refl, true, false, none, some, String, [], ◌∷◌, arith}
use render_cart.Access.{StaffRole}
use render_cart.Auth.{
  TokenPurpose, User, Accounts, Crypto, Visit, ok, error, user_of, consume_token,
}
use render_cart.Auth.SignIn.{
  login, open_link, signing_in, resetting, serve_all, looks, logs_out, sign_in_with_magic_link,
}
use render_cart.Auth.Tokens.{open_link-once}
use render_cart.Auth.Staff.{change_role, staff, staff-without_second_factor}

abbrev crypto : Crypto
crypto = record {
  digest_secret = λ secret. secret;
  verify_password = λ hash password. str_eq hash password;
  verify_totp = λ secret code. str_eq secret code;
}

abbrev visit : (now : ℕ) (new_secret : String) → Visit
visit now new_secret = record {
  now = now;
  new_secret = new_secret;
  guest_id = none;
  auth_token_ttl = 900;
  session_ttl = 2592000;
  admin_session_ttl = 43200;
}

abbrev ada : User
ada = record {
  id = 7;
  email = "ada@example.com";
  email_verified_at = some 50;
  password_hash = some "lovelace";
  staff_role = StaffRole.user;
  is_banned = false;
  totp_secret = none;
  totp_enabled = false;
}

abbrev accounts : Accounts
accounts = record {
  users = ada ∷ [];
  sessions = [];
  tokens =
      record {
        token_hash = "link";
        user_id = 7;
        purpose = TokenPurpose.magic_link;
        expires_at = 1000;
        used_at = none;
      }
      ∷ [];
  recovery_codes = [];
  uploads = [];
  jobs = [];
  audit_log = [];
}

abbrev signed_in : Accounts
signed_in = record accounts {
  sessions =
      record {
        token_hash = "session";
        user_id = 7;
        last_seen_at = 200;
        expires_at = 2592200;
        mfa_verified = true;
      }
      ∷ [];
  tokens =
      record {
        token_hash = "link";
        user_id = 7;
        purpose = TokenPurpose.magic_link;
        expires_at = 1000;
        used_at = some 200;
      }
      ∷ [];
}

open_link-first :
    open_link crypto (signing_in none) (visit 200 "session") "link" accounts ≡ ok signed_in
unfolding sign_in_with_magic_link consume_token
open_link-first = refl

-- An expired link is refused.
open_link-late :
    open_link crypto (signing_in none) (visit 1000 "session") "link" accounts ≡ error 400
unfolding sign_in_with_magic_link consume_token
open_link-late = refl

open_link-once_example :
    open_link crypto
      (resetting "noether")
      (visit 300 "other")
      "link"
      (serve_all crypto (looks (visit 250 "") "session" ∷ logs_out "session" ∷ []) signed_in)
    ≡ error 400
open_link-once_example =
    open_link-once crypto (signing_in none) (resetting "noether") (visit 200 "session")
      (visit 300 "other") "link" (looks (visit 250 "") "session" ∷ logs_out "session" ∷ []) accounts
      signed_in open_link-first

staff-without_second_factor_example :
    (s1 s2 s3 : Accounts) × (w : User) × (login crypto
        (visit 200 "session")
        "ada@example.com"
        "lovelace"
        none
        accounts
      ≡ ok s1)
    × (change_role StaffRole.admin (user_of 7 s1) s1 ≡ ok s2)
    × (staff crypto [] [] 300 "session" false s2 ≡ ok (w, s3))
    × (w.id ≡ 7)
    × (w.totp_enabled ≡ false)
staff-without_second_factor_example =
    staff-without_second_factor crypto [] [] (visit 200 "session") "ada@example.com" "lovelace" ada
      accounts 300 refl refl refl refl refl refl refl (omega arith)
