-- ===== src/Auth/Tokens.antt =====
-- A link of auth/service.py is good once: `consume_token` against every later request.
use text.Mathlib.Text.{◌==◌ as str_eq}
use render_cart.Prelude.{
  ℕ, ◌≡◌, ◌⊎◌, subst, refl, inl, inr, ap, ◌∙◌, String, Bool, true, false, not, ◌&&◌, Option, none,
  some, List, [], ◌∷◌, ◌++◌, if◌then◌else◌, arith, find_by,
}
use render_cart.Auth.{
  TokenPurpose, User, AuthSession, Accounts, Crypto, Visit, Result, ok, error, and_then,
  attach_guest_data, create_auth_token, consume_token, put_user,
}
use render_cart.Auth.SignIn.{
  Request, asks_link, signs_up, logs_in, follows_link, verifies, resets, looks, proves, sets_up,
  confirms, logs_out, serve, serve_all, LinkUse, signing_in, verifying, resetting, open_link,
  new_user, user_by_email, wants_link, logout, login, request_link, open_session, authenticate,
  sign_in_with_magic_link, confirmed, verify_address, change_password, verify_totp_for_session,
  setup_totp, confirm_totp, current_user, signup, second_factor,
}
use render_cart.Auth.Spent.{
  spent-append, spent-use_token, use_token-spent, spent-found, passes, refusal, and_then-Passes,
  either_Passes, of_ok, Stays, attach-tokens, committed-Stays, code-tokens, second_factor-tokens,
  require_session-Passes, check_token-Passes, spent, Passes,
}

module _ (crypto : Crypto) where
  -- The digest of a link that is followed is the one that is spent, or another one.
  consume_token-Passes :
      (h : String) (now : ℕ) (raw : String) (p : TokenPurpose) (s : Accounts)
      → (Stays h s ⊎ (crypto.digest_secret raw ≡ h))
      → Passes (λ (x : User × Accounts). Stays h x.1) (consume_token crypto now raw p s)
  unfolding consume_token
  consume_token-Passes h now raw p s (inl e) =
      check_token-Passes crypto h now p s _ λ t found. spent-use_token h t.token_hash now s.tokens e
  consume_token-Passes h now raw p s (inr same) = check_token-Passes crypto h now p s _ λ t found.
      use_token-spent h now t s.tokens
        (subst (λ k. find_by (λ x. str_eq x.token_hash k) s.tokens ≡ some t) same found)

  open_session-Passes :
      (h : String) (v : Visit) (u : User) (passed : Bool) (s : Accounts)
      → Stays h s
      → Passes (Stays h) (open_session crypto v u (passed, s))
  open_session-Passes h v u true s e = passes _ (ap (spent h) (attach-tokens v u v.guest_id s) ∙ e)
  open_session-Passes h v u false s e = refusal 401

  enter-Passes :
      (h : String) (v : Visit) (u : User) (code : Option String) (s : Accounts)
      → Stays h s
      → Passes (Stays h) (open_session crypto v u (second_factor crypto v.now u code s))
  enter-Passes h v u code s e =
      open_session-Passes h v u (second_factor crypto v.now u code s).0
        (second_factor crypto v.now u code s).1
        (ap (spent h) (second_factor-tokens crypto v.now u code s) ∙ e)

  login-Passes :
      (h : String) (v : Visit) (email password : String) (code : Option String) (s : Accounts)
      → Stays h s
      → Passes (Stays h) (login crypto v email password code s)
  unfolding login
  login-Passes h v email password code s e = known (authenticate crypto email password s)
    where
      known :
          (r : Result User)
          → Passes
              (Stays h)
              (and_then r λ u. open_session crypto v u (second_factor crypto v.now u code s))
      known (ok u) = enter-Passes h v u code s e
      known (error status) = refusal status

  magic-Passes :
      (h : String) (v : Visit) (token : String) (code : Option String) (s : Accounts)
      → (Stays h s ⊎ (crypto.digest_secret token ≡ h))
      → Passes (Stays h) (sign_in_with_magic_link crypto v token code s)
  unfolding sign_in_with_magic_link
  magic-Passes h v token code s e =
      and_then-Passes (λ (x : User × Accounts). Stays h x.1) (Stays h) _
        (consume_token-Passes h v.now token TokenPurpose.magic_link s e)
        λ x p.
          either_Passes (Stays h) x.0.is_banned (refusal 403)
            (enter-Passes h v (confirmed v.now x.0) code (put_user (confirmed v.now x.0) x.1) p)

  verify_address-Passes :
      (h : String) (v : Visit) (token : String) (s : Accounts)
      → (Stays h s ⊎ (crypto.digest_secret token ≡ h))
      → Passes (Stays h) (verify_address crypto v token s)
  unfolding verify_address
  verify_address-Passes h v token s e =
      and_then-Passes (λ (x : User × Accounts). Stays h x.1) (Stays h) _
        (consume_token-Passes h v.now token TokenPurpose.verify_email s e) λ x p. passes _ p

  change_password-Passes :
      (h : String) (v : Visit) (token new_hash : String) (s : Accounts)
      → (Stays h s ⊎ (crypto.digest_secret token ≡ h))
      → Passes (Stays h) (change_password crypto v token new_hash s)
  unfolding change_password
  change_password-Passes h v token new_hash s e =
      and_then-Passes (λ (x : User × Accounts). Stays h x.1) (Stays h) _
        (consume_token-Passes h v.now token TokenPurpose.reset_password s e) λ x p. passes _ p

  proves-Passes :
      (h : String) (v : Visit) (raw code : String) (s : Accounts)
      → Stays h s
      → Passes (Stays h) (verify_totp_for_session crypto v raw code s)
  unfolding verify_totp_for_session
  proves-Passes h v raw code s e =
      and_then-Passes (λ (x : User × AuthSession × Accounts). Stays h x.2) (Stays h) _
        (require_session-Passes crypto h v.now raw s e)
        λ x p.
          either_Passes (Stays h) _ (refusal 400)
            (passes _ (ap (spent h) (code-tokens crypto v.now x.0 code x.2) ∙ p))

  setup_totp-Passes :
      (h : String) (v : Visit) (raw : String) (s : Accounts)
      → Stays h s
      → Passes (Stays h) (setup_totp crypto v raw s)
  unfolding setup_totp
  setup_totp-Passes h v raw s e =
      and_then-Passes (λ (x : User × AuthSession × Accounts). Stays h x.2) (Stays h) _
        (require_session-Passes crypto h v.now raw s e)
        λ x p. either_Passes (Stays h) x.0.totp_enabled (refusal 409) (passes _ p)

  confirm_totp-Passes :
      (h : String) (v : Visit) (raw code : String) (codes : List String) (s : Accounts)
      → Stays h s
      → Passes (Stays h) (confirm_totp crypto v raw code codes s)
  unfolding confirm_totp
  confirm_totp-Passes h v raw code codes s e =
      and_then-Passes (λ (x : User × AuthSession × Accounts). Stays h x.2) (Stays h) _
        (require_session-Passes crypto h v.now raw s e)
        λ x p. either_Passes (Stays h) _ (refusal 409) (
          either_Passes (Stays h) _ (refusal 400)
            (passes _ (ap (spent h) (code-tokens crypto v.now x.0 code x.2) ∙ p)))

  current_user-Passes :
      (h : String) (now : ℕ) (raw : String) (s : Accounts)
      → Stays h s
      → Passes (Stays h) (current_user crypto now raw s)
  unfolding current_user
  current_user-Passes h now raw s e =
      and_then-Passes (λ (x : User × AuthSession × Accounts). Stays h x.2) (Stays h) _
        (require_session-Passes crypto h now raw s e) λ x p. passes _ p

  signup-Passes :
      (h : String) (v : Visit) (human : Bool) (id : ℕ) (email hash : String) (s : Accounts)
      → Stays h s
      → Passes (Stays h) (signup crypto v human id email hash s)
  unfolding signup
  signup-Passes h v human id email hash s e =
      let u = new_user crypto id email (some hash) none in
      let s' =
        create_auth_token crypto v u TokenPurpose.verify_email
          (record s { users = s.users ++ u ∷ [] }) in
      either_Passes (Stays h) (not human) (refusal 403) (
        either_Passes (Stays h) _ (refusal 409) (
          passes (attach_guest_data v u v.guest_id s')
            (ap (spent h) (attach-tokens v u v.guest_id s') ∙ spent-append h s.tokens _ e)))

  request_link-Stays :
      (h : String) (v : Visit) (p : TokenPurpose) (email : String) (s : Accounts)
      → Stays h s
      → Stays h (request_link crypto v p email s)
  unfolding request_link
  request_link-Stays h v p email s e = mailed (user_by_email email s)
    where
      mailed :
          (o : Option User)
          → Stays h (elim o [
            | none ↦ s
            | some u ↦
                if wants_link crypto p u && not u.is_banned
                then create_auth_token crypto v u p s
                else s
          ])
      mailed none = e
      mailed (some u) = ground (
        arith,
        spent-append h s.tokens (create_auth_token crypto v u p (record s { tokens = [] })).tokens
            e,
      )

  logout-Stays : (h raw : String) (s : Accounts) → Stays h s → Stays h (logout crypto raw s)
  unfolding logout
  logout-Stays h raw s e = ground arith

  serve-Stays :
      (h : String) (q : Request crypto) (s : Accounts) → Stays h s → Stays h (serve crypto q s)
  unfolding serve
  serve-Stays h (asks_link v p email) s e = request_link-Stays h v p email s e
  serve-Stays h (signs_up v human id email hash) s e =
      committed-Stays crypto h s e (signup-Passes h v human id email hash s e)
  serve-Stays h (logs_in v email password code) s e =
      committed-Stays crypto h s e (login-Passes h v email password code s e)
  serve-Stays h (follows_link v token code) s e =
      committed-Stays crypto h s e (magic-Passes h v token code s (inl e))
  serve-Stays h (verifies v token) s e =
      committed-Stays crypto h s e (verify_address-Passes h v token s (inl e))
  serve-Stays h (resets v token new_hash) s e =
      committed-Stays crypto h s e (change_password-Passes h v token new_hash s (inl e))
  serve-Stays h (looks v raw) s e =
      committed-Stays crypto h s e (current_user-Passes h v.now raw s e)
  serve-Stays h (proves v raw code) s e =
      committed-Stays crypto h s e (proves-Passes h v raw code s e)
  serve-Stays h (sets_up v raw) s e = committed-Stays crypto h s e (setup_totp-Passes h v raw s e)
  serve-Stays h (confirms v raw code codes) s e =
      committed-Stays crypto h s e (confirm_totp-Passes h v raw code codes s e)
  serve-Stays h (logs_out raw) s e = logout-Stays h raw s e

  serve_all-Stays :
      (h : String) (qs : List (Request crypto)) (s : Accounts)
      → Stays h s
      → Stays h (serve_all crypto qs s)
  serve_all-Stays h [] s e = e
  serve_all-Stays h (q ∷ qs) s e = serve_all-Stays h qs (serve crypto q s) (serve-Stays h q s e)

  open_link-Passes :
      (h : String) (kind : LinkUse crypto) (v : Visit) (token : String) (s : Accounts)
      → (Stays h s ⊎ (crypto.digest_secret token ≡ h))
      → Passes (Stays h) (open_link crypto kind v token s)
  open_link-Passes h (signing_in code) v token s e = magic-Passes h v token code s e
  open_link-Passes h verifying v token s e = verify_address-Passes h v token s e
  open_link-Passes h (resetting new_hash) v token s e =
      change_password-Passes h v token new_hash s e

  consume_spent :
      (now : ℕ) (raw : String) (p : TokenPurpose) (s : Accounts)
      → Stays (crypto.digest_secret raw) s
      → consume_token crypto now raw p s ≡ error 400
  unfolding consume_token
  consume_spent now raw p s e =
      let (t, found, used) = spent-found (crypto.digest_secret raw) s.tokens e in
      rw found (ground arith)

  open_spent :
      (kind : LinkUse crypto) (v : Visit) (token : String) (s : Accounts)
      → Stays (crypto.digest_secret token) s
      → open_link crypto kind v token s ≡ error 400
  unfolding sign_in_with_magic_link verify_address change_password
  open_spent (signing_in code) v token s e =
      rw (consume_spent v.now token TokenPurpose.magic_link s e) refl
  open_spent verifying v token s e =
      rw (consume_spent v.now token TokenPurpose.verify_email s e) refl
  open_spent (resetting new_hash) v token s e =
      rw (consume_spent v.now token TokenPurpose.reset_password s e) refl

  -- A link is good once: if it was opened and what it was opened for was done, then after any
  -- further requests to sign up, in or out, for links, resets and second factors, opening it is
  -- refused with 400, whatever it is opened for.
  pub open_link-once :
      (kind kind' : LinkUse crypto) (v v' : Visit) (token : String) (qs : List (Request crypto))
      (s s' : Accounts)
      → open_link crypto kind v token s ≡ ok s'
      → open_link crypto kind' v' token (serve_all crypto qs s') ≡ error 400
  open_link-once kind kind' v v' token qs s s' e =
      let h = crypto.digest_secret token in
      let opened : Passes (Stays h) (ok s') =
        subst (λ r. Passes (Stays h) r) e (open_link-Passes h kind v token s (inr refl)) in
      open_spent kind' v' token (serve_all crypto qs s')
        (serve_all-Stays h qs s' (of_ok (Stays h) s' opened))
