-- ===== src/Auth/Spent.antt =====
-- The used tokens of auth/models.py: which of the steps of auth/service.py keep them.
use text.Mathlib.Text.{◌==◌ as str_eq}
use text.Mathlib.TextEquality.{eq_iff}
use text.Mathlib.TextPositions.{eq_refl}
use render_cart.Prelude.{
  ℕ, ◌≡◌, refl, inl, inr, ap, ◌∙◌, String, Bool, true, false, Option, none, some, List, [], ◌∷◌,
  ◌++◌, if◌then◌else◌, arith, Bool-cases, is_some, find_by,
}
use render_cart.Auth.{
  TokenPurpose, User, AuthSession, AuthToken, RecoveryCode, Accounts, Crypto, Visit, Result, ok,
  error, and_then, use_token, attach_guest_data, check_token, check_code, get_session_user,
  live_session, touch_session, verify_totp_or_recovery, totp_matches, user_of,
}
use render_cart.Auth.SignIn.{committed, second_factor, session_or_refusal, require_session}

-- Whether the first token of a hash is used.
abbrev pub spent : String → List AuthToken → Bool
spent h [] = false
spent h (t ∷ ts) =
    let rest = spent h ts in if str_eq t.token_hash h then is_some t.used_at else rest

pub spent-append :
    (h : String) (ts us : List AuthToken) → spent h ts ≡ true → spent h (ts ++ us) ≡ true
spent-append h [] us e = absurd (ground arith)
spent-append h (t ∷ ts) us e = ground (arith, spent-append h ts us)

pub spent-use_token :
    (h k : String) (now : ℕ) (ts : List AuthToken)
    → spent h ts ≡ true
    → spent h (use_token now k ts) ≡ true
spent-use_token h k now [] e = absurd (ground arith)
spent-use_token h k now (t ∷ ts) e = ground (arith, spent-use_token h k now ts)

found-hash :
    (h : String) (ts : List AuthToken) (t : AuthToken)
    → find_by (λ x. str_eq x.token_hash h) ts ≡ some t
    → t.token_hash ≡ h
found-hash h [] t e = absurd (ground arith)
found-hash h (u ∷ ts) t e = ground (arith, eq_iff u.token_hash h, found-hash h ts t)

pub use_token-spent :
    (h : String) (now : ℕ) (t : AuthToken) (ts : List AuthToken)
    → find_by (λ x. str_eq x.token_hash h) ts ≡ some t
    → spent h (use_token now t.token_hash ts) ≡ true
use_token-spent h now t [] e = absurd (ground arith)
use_token-spent h now t (u ∷ ts) e =
    ground (arith, use_token-spent h now t ts, found-hash h (u ∷ ts) t e, eq_refl u.token_hash)

pub spent-found :
    (h : String) (ts : List AuthToken)
    → spent h ts ≡ true
    → (t : AuthToken) × (find_by (λ x. str_eq x.token_hash h) ts ≡ some t)
      × (is_some t.used_at ≡ true)
spent-found h [] e = absurd (ground arith)
spent-found h (t ∷ ts) e = elim (Bool-cases (str_eq t.token_hash h)) [
  | inl same ↦ (t, rw same refl, ground arith)
  | inr differs ↦
      let (u, found, used) = spent-found h ts (ground arith) in (u, rw differs found, used)
]

-- What a result holds, if it is not an error.
pub data Passes {A : Type 0} (P : A → Type 0) : Result A → Type 0 where
  passes : (x : A) → P x → Passes P (ok x)
  refusal : (status : ℕ) → Passes P (error status)

pub and_then-Passes :
    {A B : Type 0} (P : A → Type 0) (Q : B → Type 0) (f : A → Result B) {r : Result A}
    → Passes P r
    → ((x : A) → P x → Passes Q (f x))
    → Passes Q (and_then r f)
and_then-Passes P Q f (passes x p) h = h x p
and_then-Passes P Q f (refusal e) h = refusal e

pub either_Passes :
    {A : Type 0} (P : A → Type 0) (b : Bool) {x y : Result A}
    → Passes P x
    → Passes P y
    → Passes P (if b then x else y)
either_Passes P true p q = p
either_Passes P false p q = q

pub of_ok : {A : Type 0} (P : A → Type 0) (x : A) → Passes P (ok x) → P x
of_ok P x (passes y p) = p

abbrev pub Stays : String → Accounts → Type 0
Stays h s = spent h s.tokens ≡ true

pub attach-tokens :
    (v : Visit) (u : User) (guest : Option String) (s : Accounts)
    → (attach_guest_data v u guest s).tokens ≡ s.tokens
attach-tokens v u none s = refl
attach-tokens v u (some g) s = refl

module _ (crypto : Crypto) where
  pub committed-Stays :
      (h : String) (s : Accounts) {r : Result Accounts}
      → Stays h s
      → Passes (Stays h) r
      → Stays h (committed crypto s r)
  committed-Stays h s e (passes s' p) = p
  committed-Stays h s e (refusal status) = e

  check_code-tokens :
      (now : ℕ) (u : User) (c : Option RecoveryCode) (s : Accounts)
      → (check_code crypto now u c s).1.tokens ≡ s.tokens
  check_code-tokens now u none s = refl
  check_code-tokens now u (some c) s = ground arith

  pub code-tokens :
      (now : ℕ) (u : User) (code : String) (s : Accounts)
      → (verify_totp_or_recovery crypto now u code s).1.tokens ≡ s.tokens
  unfolding verify_totp_or_recovery
  code-tokens now u code s = elim (Bool-cases (totp_matches crypto u code)) [
    | inl right ↦ rw right refl
    | inr wrong ↦ rw wrong (check_code-tokens now u _ s)
  ]

  pub second_factor-tokens :
      (now : ℕ) (u : User) (code : Option String) (s : Accounts)
      → (second_factor crypto now u code s).1.tokens ≡ s.tokens
  second_factor-tokens now u none s = ground arith
  second_factor-tokens now u (some c) s = ground (arith, code-tokens now u c s)

  touch-tokens :
      (now : ℕ) (ses : AuthSession) (o : Option User) (s : Accounts)
      → (touch_session crypto now ses o s).1.tokens ≡ s.tokens
  touch-tokens now ses none s = refl
  touch-tokens now ses (some u) s = ground arith

  live-tokens :
      (now : ℕ) (o : Option AuthSession) (s : Accounts)
      → (live_session crypto now o s).1.tokens ≡ s.tokens
  live-tokens now none s = refl
  live-tokens now (some ses) s = ground (arith, touch-tokens now ses (user_of ses.user_id s) s)

  session-tokens :
      (now : ℕ) (raw : String) (s : Accounts)
      → (get_session_user crypto now raw s).1.tokens ≡ s.tokens
  unfolding get_session_user
  session-tokens now raw s = elim (Bool-cases (str_eq raw "")) [
    | inl missing ↦ rw missing refl
    | inr given ↦ rw given (live-tokens now _ s)
  ]

  found-Passes :
      (h : String) (o : Option (User × AuthSession)) (s : Accounts)
      → Stays h s
      → Passes
          (λ (x : User × AuthSession × Accounts). Stays h x.2)
          (session_or_refusal crypto (o, s))
  found-Passes h none s e = refusal 401
  found-Passes h (some (u, ses)) s e = passes (u, ses, s) e

  pub require_session-Passes :
      (h : String) (now : ℕ) (raw : String) (s : Accounts)
      → Stays h s
      → Passes
          (λ (x : User × AuthSession × Accounts). Stays h x.2)
          (require_session crypto now raw s)
  unfolding require_session
  require_session-Passes h now raw s e =
      found-Passes h _ (get_session_user crypto now raw s).1
        (ap (spent h) (session-tokens now raw s) ∙ e)

  pub check_token-Passes :
      (h : String) (now : ℕ) (p : TokenPurpose) (s : Accounts) (o : Option AuthToken)
      → ((t : AuthToken) → o ≡ some t → spent h (use_token now t.token_hash s.tokens) ≡ true)
      → Passes (λ (x : User × Accounts). Stays h x.1) (check_token crypto now p s o)
  check_token-Passes h now p s none f = refusal 400
  check_token-Passes h now p s (some t) f =
      either_Passes _ _ (refusal 400) (user_found (user_of t.user_id s))
    where
      user_found :
          (o : Option User)
          → Passes
              (λ (x : User × Accounts). Stays h x.1)
              (elim o [
                | none ↦ error 400
                | some u ↦ ok (u, record s { tokens = use_token now t.token_hash s.tokens })
              ])
      user_found none = refusal 400
      user_found (some u) = passes _ (f t refl)
