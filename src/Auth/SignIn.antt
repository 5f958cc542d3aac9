-- ===== src/Auth/SignIn.antt =====
-- The handlers of backend/src/rendercart/auth/router.py that sign in, verify or sign out, with
-- `authenticate`, `create_user`, `verify_email` and `reset_password` of auth/service.py, after the guards on forged requests and on too many attempts. Cookies, mail and
-- the answer's fields are left out.
use text.Mathlib.Text.{◌==◌ as str_eq}
use render_cart.Prelude.{
  ℕ, String, Bool, true, false, not, ◌&&◌, ◌||◌, Option, none, some, List, [], ◌∷◌, ◌++◌,
  if◌then◌else◌, ◌==◌, is_some, filter_by, find_by,
}
use render_cart.Access.{StaffRole}
use render_cart.Auth.{
  TokenPurpose, User, AuthSession, RecoveryCode, Accounts, Crypto, Visit, Result, ok, error,
  and_then, is_user, put_user, put_session, attach_guest_data, create_auth_token, create_session,
  consume_token, get_session_user, verify_totp_or_recovery,
}

abbrev pub user_by_email : String → Accounts → Option User
user_by_email email s = find_by (λ u. str_eq u.email email) s.users

abbrev pub confirmed : (now : ℕ) → User → User
confirmed now u =
    if is_some u.email_verified_at then u else record u { email_verified_at = some now }

module _ (crypto : Crypto) where
  open crypto use {digest_secret, verify_password}

  abbrev pub password_matches : User → (password : String) → Bool
  password_matches u password = elim u.password_hash [
    | none ↦ false
    | some hash ↦ verify_password hash password
  ]

  -- The email is normalized already.
  abbrev pub authenticate : (email password : String) → Accounts → Result User
  authenticate email password s = elim (user_by_email email s) [
    | none ↦ error 401
    | some u ↦
        if not (password_matches u password)
        then error 401
        else if u.is_banned
        then error 403
        else ok u
  ]

  -- `_set_session`
  abbrev pub set_session : Visit → User → (mfa_verified : Bool) → Accounts → Accounts
  set_session v u mfa_verified s =
      create_session crypto v u mfa_verified (attach_guest_data v u v.guest_id s)

  -- The second factor of a user who has one; without a code there is none.
  abbrev pub second_factor : (now : ℕ) → User → Option String → Accounts → Bool × Accounts
  second_factor now u code s = if not u.totp_enabled then (true, s) else elim code [
    | none ↦ (false, s)
    | some c ↦ if str_eq c "" then (false, s) else verify_totp_or_recovery crypto now u c s
  ]

  abbrev pub open_session : Visit → User → Bool × Accounts → Result Accounts
  open_session v u (passed, s) =
      if passed then ok (set_session v u (is_user u.staff_role || u.totp_enabled) s) else error 401

  unfoldable pub login :
      Visit → (email password : String) → Option String → Accounts → Result Accounts
  login v email password code s =
      and_then (authenticate email password s) λ u. open_session v u (second_factor v.now u code s)

  unfoldable pub sign_in_with_magic_link :
      Visit → (token : String) → Option String → Accounts → Result Accounts
  sign_in_with_magic_link v token code s =
      and_then (consume_token crypto v.now token TokenPurpose.magic_link s) λ used.
        let u = confirmed v.now used.0 in
        if used.0.is_banned
        then error 403
        else open_session v u (second_factor v.now u code (put_user u used.1))

  -- `verify_email`
  unfoldable pub verify_address : Visit → (token : String) → Accounts → Result Accounts
  verify_address v token s =
      and_then (consume_token crypto v.now token TokenPurpose.verify_email s)
        λ used. ok (put_user (record used.0 { email_verified_at = some v.now }) used.1)

  -- `reset_password`, with the new hash.
  unfoldable pub change_password :
      Visit → (token : String) → (new_hash : String) → Accounts → Result Accounts
  change_password v token new_hash s =
      and_then (consume_token crypto v.now token TokenPurpose.reset_password s) λ used.
        let s' = put_user (record used.0 { password_hash = some new_hash }) used.1 in
        ok (record s' { sessions = filter_by (λ t. not (t.user_id == used.0.id)) s'.sessions })

  -- A request for a link of the given purpose, which a banned user does not get.
  abbrev pub wants_link : TokenPurpose → User → Bool
  wants_link TokenPurpose.magic_link u = true
  wants_link TokenPurpose.verify_email u = not (is_some u.email_verified_at)
  wants_link TokenPurpose.reset_password u = is_some u.password_hash

  unfoldable pub request_link : Visit → TokenPurpose → (email : String) → Accounts → Accounts
  request_link v purpose email s = elim (user_by_email email s) [
    | none ↦ s
    | some u ↦
        if wants_link purpose u && not u.is_banned
        then create_auth_token crypto v u purpose s
        else s
  ]

  -- A new user has a fresh id.
  abbrev pub new_user :
      (id : ℕ) → (email : String) → (password_hash : Option String) → Option ℕ → User
  new_user id email password_hash verified = record {
    id = id;
    email = email;
    email_verified_at = verified;
    password_hash = password_hash;
    staff_role = StaffRole.user;
    is_banned = false;
    totp_secret = none;
    totp_enabled = false;
  }

  -- `signup` with `create_user`, when the anti-bot check agrees or not.
  unfoldable pub signup :
      Visit → (human : Bool) → (id : ℕ) → (email hash : String) → Accounts → Result Accounts
  signup v human id email hash s =
      let u = new_user id email (some hash) none in
      let s' =
        create_auth_token crypto v u TokenPurpose.verify_email
          (record s { users = s.users ++ u ∷ [] }) in
      if not human
      then error 403
      else if is_some (user_by_email email s)
      then error 409
      else ok (attach_guest_data v u v.guest_id s')

  abbrev pub signed_in : Result (User × AuthSession × Accounts) → Result Accounts
  signed_in r = and_then r λ x. ok x.2

  abbrev pub session_or_refusal :
      Option (User × AuthSession) × Accounts → Result (User × AuthSession × Accounts)
  session_or_refusal (none, s) = error 401
  session_or_refusal (some (u, ses), s) = ok (u, ses, s)

  unfoldable pub require_session :
      (now : ℕ) → String → Accounts → Result (User × AuthSession × Accounts)
  require_session now raw s = session_or_refusal (get_session_user crypto now raw s)

  -- `/me`, which notes that the session was seen.
  unfoldable pub current_user : (now : ℕ) → (raw : String) → Accounts → Result Accounts
  current_user now raw s = signed_in (require_session now raw s)

  unfoldable pub verify_totp_for_session : Visit → (raw code : String) → Accounts → Result Accounts
  verify_totp_for_session v raw code s = and_then (require_session v.now raw s) λ x.
      let (passed, s') = verify_totp_or_recovery crypto v.now x.0 code x.2 in
      if not x.0.totp_enabled || not passed
      then error 400
      else ok (put_session (record x.1 { mfa_verified = true }) s')

  -- `setup_totp`, with the new secret of `create_totp_secret`.
  unfoldable pub setup_totp : Visit → (raw : String) → Accounts → Result Accounts
  setup_totp v raw s = and_then (require_session v.now raw s) λ x.
      if x.0.totp_enabled
      then error 409
      else ok (put_user (record x.0 { totp_secret = some v.new_secret }) x.2)

  abbrev pub recovery_rows : (user : ℕ) → List String → List RecoveryCode
  recovery_rows user [] = []
  recovery_rows user (code ∷ codes) =
      (record { token_hash = digest_secret code; user_id = user; used_at = none })
      ∷ recovery_rows user codes

  -- The ten recovery codes come with the call.
  unfoldable pub confirm_totp :
      Visit → (raw code : String) → (recovery_codes : List String) → Accounts → Result Accounts
  confirm_totp v raw code recovery_codes s = and_then (require_session v.now raw s) λ x.
      let (passed, s') = verify_totp_or_recovery crypto v.now x.0 code x.2 in
      let s'' =
        put_session (record x.1 { mfa_verified = true })
          (put_user (record x.0 { totp_enabled = true }) s') in
      if x.0.totp_enabled || not (is_some x.0.totp_secret)
      then error 409
      else if not passed
      then error 400
      else ok (record s'' {
        recovery_codes = s''.recovery_codes ++ recovery_rows x.0.id recovery_codes;
      })

  unfoldable pub logout : (raw : String) → Accounts → Accounts
  logout raw s = if str_eq raw "" then s else record s {
    sessions = filter_by (λ t. not (str_eq t.token_hash (digest_secret raw))) s.sessions;
  }

  -- What a browser may ask for.
  pub data Request : Type 0 where
    asks_link : Visit → TokenPurpose → (email : String) → Request
    signs_up : Visit → (human : Bool) → (id : ℕ) → (email hash : String) → Request
    logs_in : Visit → (email password : String) → Option String → Request
    follows_link : Visit → (token : String) → Option String → Request
    verifies : Visit → (token : String) → Request
    resets : Visit → (token new_hash : String) → Request
    looks : Visit → (raw : String) → Request
    proves : Visit → (raw code : String) → Request
    sets_up : Visit → (raw : String) → Request
    confirms : Visit → (raw code : String) → (recovery_codes : List String) → Request
    logs_out : (raw : String) → Request

  -- A refused request changes nothing.
  abbrev pub committed : Accounts → Result Accounts → Accounts
  committed s (ok s') = s'
  committed s (error status) = s

  unfoldable pub serve : Request → Accounts → Accounts
  unfolding request_link signup login sign_in_with_magic_link verify_address change_password
      current_user verify_totp_for_session setup_totp confirm_totp logout
  serve (asks_link v purpose email) s = request_link v purpose email s
  serve (signs_up v human id email hash) s = committed s (signup v human id email hash s)
  serve (logs_in v email password code) s = committed s (login v email password code s)
  serve (follows_link v token code) s = committed s (sign_in_with_magic_link v token code s)
  serve (verifies v token) s = committed s (verify_address v token s)
  serve (resets v token new_hash) s = committed s (change_password v token new_hash s)
  serve (looks v raw) s = committed s (current_user v.now raw s)
  serve (proves v raw code) s = committed s (verify_totp_for_session v raw code s)
  serve (sets_up v raw) s = committed s (setup_totp v raw s)
  serve (confirms v raw code codes) s = committed s (confirm_totp v raw code codes s)
  serve (logs_out raw) s = logout raw s

  abbrev pub serve_all : List Request → Accounts → Accounts
  serve_all [] s = s
  serve_all (q ∷ qs) s = serve_all qs (serve q s)

  -- What a link is opened for.
  pub data LinkUse : Type 0 where
    signing_in : (code : Option String) → LinkUse
    verifying : LinkUse
    resetting : (new_hash : String) → LinkUse

  abbrev pub open_link : LinkUse → Visit → (token : String) → Accounts → Result Accounts
  open_link (signing_in code) v token s = sign_in_with_magic_link v token code s
  open_link verifying v token s = verify_address v token s
  open_link (resetting new_hash) v token s = change_password v token new_hash s
