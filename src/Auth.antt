-- ===== src/Auth.antt =====
-- backend/src/rendercart/auth/service.py and auth/security.py: the rows of auth/models.py, and what
-- a token, a session and a second factor may do. Hashes and one-time codes are computed by
-- libraries, which are a parameter; a new secret comes with the call.
pub mod SignIn
pub mod Spent
pub mod Tokens
pub mod Staff
mod Tests
use text.Mathlib.Text.{◌==◌ as str_eq}
use render_cart.Prelude.{
  ℕ, ◌+◌, String, Bool, true, false, not, ◌&&◌, ◌||◌, Option, none, some, List, [], ◌∷◌, ◌++◌,
  if◌then◌else◌, ◌==◌, leb, is_some, filter_by, find_by, update_by,
}
use render_cart.Access.{StaffRole}
use render_cart.Jobs.{Job, AuditRow}
use render_cart.Creation.{Upload}

pub data TokenPurpose : Type 0 where
  magic_link verify_email reset_password : TokenPurpose

-- `User`, the columns that signing in reads or writes; `password_hash` of NULL is none.
pub record User : Type 0 where
  pub id : ℕ
  pub email : String
  pub email_verified_at : Option ℕ
  pub password_hash : Option String
  pub staff_role : StaffRole
  pub is_banned : Bool
  pub totp_secret : Option String
  pub totp_enabled : Bool

pub record AuthSession : Type 0 where
  pub token_hash : String
  pub user_id : ℕ
  pub last_seen_at : ℕ
  pub expires_at : ℕ
  pub mfa_verified : Bool

pub record AuthToken : Type 0 where
  pub token_hash : String
  pub user_id : ℕ
  pub purpose : TokenPurpose
  pub expires_at : ℕ
  pub used_at : Option ℕ

pub record RecoveryCode : Type 0 where
  pub token_hash : String
  pub user_id : ℕ
  pub used_at : Option ℕ

pub record Accounts : Type 0 where
  pub users : List User
  pub sessions : List AuthSession
  pub tokens : List AuthToken
  pub recovery_codes : List RecoveryCode
  pub uploads : List Upload
  pub jobs : List Job
  pub audit_log : List AuditRow

-- What the libraries compute: SHA-256 of a secret, argon2, and the code of an authenticator now.
pub record Crypto : Type 0 where
  pub digest_secret : String → String
  pub verify_password : (hash password : String) → Bool
  pub verify_totp : (secret code : String) → Bool

-- What a call brings: the clock, a new secret, the guest of its cookie if that is valid, and the
-- settings for the life of tokens and sessions, in seconds.
pub record Visit : Type 0 where
  pub now : ℕ
  pub new_secret : String
  pub guest_id : Option String
  pub auth_token_ttl : ℕ
  pub session_ttl : ℕ
  pub admin_session_ttl : ℕ

-- An AuthError or an HTTPException, by its status; the transaction is rolled back.
pub data Result {ℓ} (A : Type ℓ) : Type ℓ where
  ok : A → Result A
  error : (status : ℕ) → Result A

abbrev pub and_then {ℓ ℓ'} : {A : Type ℓ} {B : Type ℓ'} → Result A → (A → Result B) → Result B
and_then (ok x) f = f x
and_then (error e) f = error e

abbrev pub purpose_code : TokenPurpose → ℕ
purpose_code magic_link = 0
purpose_code verify_email = 1
purpose_code reset_password = 2

abbrev pub is_user : StaffRole → Bool
is_user StaffRole.user = true
is_user _ = false

abbrev pub put_user : User → Accounts → Accounts
put_user u s = record s { users = update_by (λ v. v.id == u.id) (λ v. u) s.users }

abbrev pub put_session : AuthSession → Accounts → Accounts
put_session ses s = record s {
  sessions = update_by (λ t. str_eq t.token_hash ses.token_hash) (λ t. ses) s.sessions;
}

abbrev pub use_token : (now : ℕ) → String → List AuthToken → List AuthToken
use_token now hash =
    update_by (λ t. str_eq t.token_hash hash) (λ t. record t { used_at = some now })

abbrev pub user_of : ℕ → Accounts → Option User
user_of i s = find_by (λ u. u.id == i) s.users

abbrev pub same_owner : (guest : String) → Option String → Bool
same_owner guest none = false
same_owner guest (some g) = str_eq g guest

abbrev pub claim_uploads : (now user : ℕ) (guest : String) → List Upload → List Upload
claim_uploads now user guest [] = []
claim_uploads now user guest (u ∷ us) =
    (if same_owner guest u.guest_id && (not (is_some u.user_id) && not (leb u.expires_at now))
      then record u { user_id = some user; guest_id = none }
      else u)
    ∷ claim_uploads now user guest us

abbrev pub claim_jobs : (now user : ℕ) (guest : String) → List Job → List Job
claim_jobs now user guest [] = []
claim_jobs now user guest (j ∷ js) =
    (if same_owner guest j.guest_id && (not (is_some j.user_id) && not (leb j.expires_at now))
      then record j { user_id = some user; guest_id = none }
      else j)
    ∷ claim_jobs now user guest js

-- `attach_guest_data` of core/ownership.py.
abbrev pub attach_guest_data : Visit → User → Option String → Accounts → Accounts
attach_guest_data v u none s = s
attach_guest_data v u (some guest) s = record s {
  uploads = claim_uploads v.now u.id guest s.uploads;
  jobs = claim_jobs v.now u.id guest s.jobs;
}

module _ (crypto : Crypto) where
  open crypto use {digest_secret, verify_password, verify_totp}

  abbrev pub create_auth_token : Visit → User → TokenPurpose → Accounts → Accounts
  create_auth_token v u purpose s = record s {
    tokens =
        s.tokens
        ++ (record {
          token_hash = digest_secret v.new_secret;
          user_id = u.id;
          purpose = purpose;
          expires_at = v.now + v.auth_token_ttl;
          used_at = none;
        })
          ∷ [];
  }

  abbrev pub create_session : Visit → User → (mfa_verified : Bool) → Accounts → Accounts
  create_session v u mfa_verified s = record s {
    sessions =
        s.sessions
        ++ (record {
          token_hash = digest_secret v.new_secret;
          user_id = u.id;
          last_seen_at = v.now;
          expires_at =
              v.now
              + (if is_user u.staff_role || v.admin_session_ttl == 0
                  then v.session_ttl
                  else v.admin_session_ttl);
          mfa_verified = mfa_verified;
        })
          ∷ [];
  }

  abbrev pub check_token :
      (now : ℕ) → TokenPurpose → Accounts → Option AuthToken → Result (User × Accounts)
  check_token now purpose s none = error 400
  check_token now purpose s (some t) =
      if not (purpose_code t.purpose == purpose_code purpose)
        || (is_some t.used_at || leb t.expires_at now)
      then error 400
      else elim (user_of t.user_id s) [
        | none ↦ error 400
        | some u ↦ ok (u, record s { tokens = use_token now t.token_hash s.tokens })
      ]

  unfoldable pub consume_token :
      (now : ℕ) (raw_token : String) → TokenPurpose → Accounts → Result (User × Accounts)
  consume_token now raw_token purpose s =
      check_token now purpose s
        (find_by (λ t. str_eq t.token_hash (digest_secret raw_token)) s.tokens)

  abbrev pub touch_session :
      (now : ℕ) → AuthSession → Option User → Accounts → Option (User × AuthSession) × Accounts
  touch_session now ses none s = (none, s)
  touch_session now ses (some u) s =
      let ses' : AuthSession = record ses { last_seen_at = now } in
      if u.is_banned then (none, s) else (some (u, ses'), put_session ses' s)

  abbrev pub live_session :
      (now : ℕ) → Option AuthSession → Accounts → Option (User × AuthSession) × Accounts
  live_session now none s = (none, s)
  live_session now (some ses) s =
      if leb ses.expires_at now
      then (
        none,
        record s {
          sessions = filter_by (λ t. not (str_eq t.token_hash ses.token_hash)) s.sessions;
        },
      )
      else touch_session now ses (user_of ses.user_id s) s

  -- A missing cookie is the empty string, which the code treats alike.
  unfoldable pub get_session_user :
      (now : ℕ) (raw_token : String) → Accounts → Option (User × AuthSession) × Accounts
  get_session_user now raw_token s =
      if str_eq raw_token ""
      then (none, s)
      else live_session now
          (find_by (λ t. str_eq t.token_hash (digest_secret raw_token)) s.sessions) s

  abbrev pub check_code : (now : ℕ) → User → Option RecoveryCode → Accounts → Bool × Accounts
  check_code now u none s = (false, s)
  check_code now u (some c) s =
      if not (c.user_id == u.id) || is_some c.used_at then (false, s) else (
        true,
        record s {
          recovery_codes =
              update_by (λ d. str_eq d.token_hash c.token_hash)
                (λ d. record d { used_at = some now }) s.recovery_codes;
        },
      )

  abbrev pub totp_matches : User → (code : String) → Bool
  totp_matches u code = elim u.totp_secret [ none ↦ false | some secret ↦ verify_totp secret code ]

  unfoldable pub verify_totp_or_recovery :
      (now : ℕ) → User → (code : String) → Accounts → Bool × Accounts
  verify_totp_or_recovery now u code s =
      if totp_matches u code
      then (true, s)
      else check_code now u
          (find_by (λ d. str_eq d.token_hash (digest_secret code)) s.recovery_codes) s
