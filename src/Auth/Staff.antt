-- ===== src/Auth/Staff.antt =====
-- The guard of the staff pages and the change of a role, `_staff` and `set_user_role` of
-- backend/src/rendercart/admin/router.py, against the sessions of auth/router.py.
use text.Mathlib.Text.{◌==◌ as str_eq}
use text.Mathlib.TextPositions.{eq_refl}
use render_cart.Prelude.{
  ℕ, ◌+◌, ◌<◌, ◌≡◌, refl, sym, ap, ◌∙◌, subst, leb, String, Bool, true, false, not, ◌&&◌, ◌||◌,
  Option, none, some, List, [], ◌∷◌, ◌++◌, if◌then◌else◌, ◌==◌, arith, is_some, any_of, find_by,
  update_by,
}
use render_cart.Access.{Level, below, StaffRole, Subscription, DayPass, user_level, staff_level}
use render_cart.Access.Laws.{user_level_lem}
use render_cart.Auth.{
  User, is_user, AuthSession, Accounts, Crypto, Visit, Result, ok, error, and_then, put_user,
  user_of, get_session_user, attach_guest_data, put_session,
}
use render_cart.Auth.SignIn.{
  user_by_email, login, authenticate, set_session, open_session, second_factor, password_matches,
}

abbrev pub is_super : StaffRole → Bool
is_super StaffRole.super_admin = true
is_super _ = false

abbrev pub is_admin : StaffRole → Bool
is_admin StaffRole.admin = true
is_admin _ = false

-- `set_user_role` on the row of the user, after its caller was let in.
abbrev pub change_role : StaffRole → Option User → Accounts → Result Accounts
change_role role none s = error 404
change_role role (some u) s =
    let s' = put_user (record u { staff_role = role }) s in
    if is_super u.staff_role
    then error 404
    else if is_admin role && not (is_some u.email_verified_at)
    then error 422
    else ok (record s' { audit_log = s'.audit_log ++ ("user.role_changed", u.id) ∷ [] })

module _ (crypto : Crypto) (subs : List Subscription) (passes : List DayPass) where
  abbrev pub let_in :
      (now : ℕ)
      → (required : Level) → Option (User × AuthSession) × Accounts
      → Result (User × Accounts)
  let_in now required (none, s) = error 404
  let_in now required (some (u, ses), s) =
      if below (user_level subs passes u.id u.staff_role now) required || not ses.mfa_verified
      then error 404
      else ok (u, s)

  unfoldable pub staff :
      (now : ℕ) → (raw : String) → (super_admin : Bool) → Accounts → Result (User × Accounts)
  staff now raw super_admin s =
      let_in now (if super_admin then Level.super_admin else Level.admin)
        (get_session_user crypto now raw s)

  unfoldable pub set_user_role :
      Visit → (raw : String) → (user : ℕ) → StaffRole → Accounts → Result Accounts
  unfolding staff
  set_user_role v raw user role s =
      and_then (staff v.now raw true s) λ x. change_role role (user_of user x.1) x.1

else_branch : {A : Type 0} (b : Bool) (x y : A) → b ≡ false → (if b then x else y) ≡ y
else_branch true x y e = absurd (ground arith)
else_branch false x y e = refl

find-append_fresh :
    (h : String) (x : AuthSession) (ss : List AuthSession)
    → any_of (λ t. str_eq t.token_hash h) ss ≡ false
    → x.token_hash ≡ h
    → find_by (λ t. str_eq t.token_hash h) (ss ++ x ∷ []) ≡ some x
find-append_fresh h x [] e same = ground (arith, eq_refl h)
find-append_fresh h x (t ∷ ss) e same = ground (arith, find-append_fresh h x ss)

user_of-put_user :
    (u : User) (us : List User) (w : User)
    → find_by (λ v. v.id == u.id) us ≡ some w
    → find_by (λ v. v.id == u.id) (update_by (λ v. v.id == u.id) (λ v. u) us) ≡ some u
user_of-put_user u [] w e = absurd (ground arith)
user_of-put_user u (v ∷ us) w e = ground (arith, user_of-put_user u us w)

attach-users :
    (v : Visit) (u : User) (guest : Option String) (s : Accounts)
    → (attach_guest_data v u guest s).users ≡ s.users
attach-users v u none s = refl
attach-users v u (some g) s = refl

attach-sessions :
    (v : Visit) (u : User) (guest : Option String) (s : Accounts)
    → (attach_guest_data v u guest s).sessions ≡ s.sessions
attach-sessions v u none s = refl
attach-sessions v u (some g) s = refl

change_role-admin :
    (o : Option User) (u : User) (s : Accounts)
    → o ≡ some u
    → is_super u.staff_role ≡ false
    → is_some u.email_verified_at ≡ true
    → change_role StaffRole.admin o s ≡ (
        let s' = put_user (record u { staff_role = StaffRole.admin }) s in
        ok (record s' { audit_log = s'.audit_log ++ ("user.role_changed", u.id) ∷ [] }))
change_role-admin o u s e plain verified =
    let s' = put_user (record u { staff_role = StaffRole.admin }) s in
    subst
      (λ x.
        change_role StaffRole.admin x s
        ≡ ok (record s' { audit_log = s'.audit_log ++ ("user.role_changed", u.id) ∷ [] }))
      (sym e) (rw (plain, verified) refl)

module _ (crypto : Crypto) (subs : List Subscription) (passes : List DayPass) where
  admin_level :
      (i now : ℕ) → below (user_level subs passes i StaffRole.admin now) Level.admin ≡ false
  unfolding staff_level
  admin_level i now = rw (user_level_lem subs passes i StaffRole.admin now) (ground arith)

  -- A session that counts as verified lets an admin in.
  staff-verified :
      (now : ℕ) (raw : String) (ses : AuthSession) (w : User) (s : Accounts)
      → str_eq raw "" ≡ false
      → find_by (λ t. str_eq t.token_hash (crypto.digest_secret raw)) s.sessions ≡ some ses
      → ses.mfa_verified ≡ true
      → now < ses.expires_at
      → user_of ses.user_id s ≡ some w
      → w.is_banned ≡ false
      → w.staff_role ≡ StaffRole.admin
      → (s' : Accounts) × (staff crypto subs passes now raw false s ≡ ok (w, s'))
  unfolding staff get_session_user
  staff-verified now raw ses w s given found verified live known free role =
      let late : leb ses.expires_at now ≡ false = ground arith in
      let level : below (user_level subs passes w.id w.staff_role now) Level.admin ≡ false =
        subst (λ r. below (user_level subs passes w.id r now) Level.admin ≡ false) (sym role)
          (admin_level w.id now) in
      let ses' : AuthSession = record ses { last_seen_at = now } in
      let seen : get_session_user crypto now raw s ≡ (some (w, ses'), put_session ses' s) =
        rw (given, found, late, known) (else_branch w.is_banned _ _ free) in
      (
        put_session ses' s,
        ap (let_in crypto subs passes now Level.admin) seen
            ∙ else_branch
                (below (user_level subs passes w.id w.staff_role now) Level.admin
                  || not ses.mfa_verified)
                _ _ (rw (level, verified) refl),
      )

  authenticate-free :
      (email password : String) (o : Option User) (u : User)
      → (elim o [
        | none ↦ error 401
        | some w ↦
            if not (password_matches crypto w password)
            then error 401
            else if w.is_banned
            then error 403
            else ok w
      ])
        ≡ ok u
      → u.is_banned ≡ false
  authenticate-free email password none u e = absurd (ground arith)
  authenticate-free email password (some w) u e = ground arith

  login-plain :
      (v : Visit) (email password : String) (u : User) (s : Accounts)
      → authenticate crypto email password s ≡ ok u
      → u.totp_enabled ≡ false
      → u.staff_role ≡ StaffRole.user
      → login crypto v email password none s ≡ ok (set_session crypto v u true s)
  unfolding login
  login-plain v email password u s a plain role =
      let mfa : (is_user u.staff_role || u.totp_enabled) ≡ true =
        subst (λ r. (is_user r || u.totp_enabled) ≡ true) (sym role) refl in
      subst
        (λ r.
          and_then r (λ x. open_session crypto v x (second_factor crypto v.now x none s))
          ≡ ok (set_session crypto v u true s))
        (sym a)
        (subst
          (λ b.
            open_session crypto v u (if not b then (true, s) else (false, s))
            ≡ ok (set_session crypto v u true s))
          (sym plain) (ap (λ m. ok (set_session crypto v u m s)) mfa))

  -- A user who signed in by password alone and then becomes an admin is let into the staff pages by
  -- that session although the user has no authenticator: the session counted as verified when the
  -- user was an ordinary one. Conditions: the row is the user's, with a verified address; the new
  -- session's secret is fresh and not empty, and it has not expired.
  pub staff-without_second_factor :
      (v : Visit) (email password : String) (u : User) (s : Accounts) (now : ℕ)
      → authenticate crypto email password s ≡ ok u
      → user_of u.id s ≡ some u
      → u.totp_enabled ≡ false
      → u.staff_role ≡ StaffRole.user
      → is_some u.email_verified_at ≡ true
      → str_eq v.new_secret "" ≡ false
      → any_of (λ t. str_eq t.token_hash (crypto.digest_secret v.new_secret)) s.sessions ≡ false
      → now < v.now + v.session_ttl
      → (s1 s2 s3 : Accounts) × (w : User) × (login crypto v email password none s ≡ ok s1)
        × (change_role StaffRole.admin (user_of u.id s1) s1 ≡ ok s2)
        × (staff crypto subs passes now v.new_secret false s2 ≡ ok (w, s3))
        × (w.id ≡ u.id)
        × (w.totp_enabled ≡ false)
  staff-without_second_factor v email password u s now a row plain role verified given fresh live =
      let s1 = set_session crypto v u true s in
      let w : User = record u { staff_role = StaffRole.admin } in
      let ttl =
        if is_user u.staff_role || v.admin_session_ttl == 0
        then v.session_ttl
        else v.admin_session_ttl in
      let long : ttl ≡ v.session_ttl =
        subst
          (λ r.
            (if is_user r || v.admin_session_ttl == 0 then v.session_ttl else v.admin_session_ttl)
            ≡ v.session_ttl)
          (sym role) refl in
      let ses : AuthSession = record {
        token_hash = crypto.digest_secret v.new_secret;
        user_id = u.id;
        last_seen_at = v.now;
        expires_at = v.now + ttl;
        mfa_verified = true;
      } in
      let here : user_of u.id s1 ≡ some u =
        ap (find_by (λ x. x.id == u.id)) (attach-users v u v.guest_id s) ∙ row in
      let s2 : Accounts = record (put_user w s1) {
        audit_log = (put_user w s1).audit_log ++ ("user.role_changed", u.id) ∷ [];
      } in
      let found : find_by (λ t. str_eq t.token_hash (crypto.digest_secret v.new_secret)) s2.sessions
          ≡ some ses =
        ap
          (λ xs.
            find_by (λ t. str_eq t.token_hash (crypto.digest_secret v.new_secret)) (xs ++ ses ∷ []))
          (attach-sessions v u v.guest_id s)
        ∙ find-append_fresh (crypto.digest_secret v.new_secret) ses s.sessions fresh refl in
      let (s3, entered) =
        staff-verified now v.new_secret ses w s2 given found refl (omega (arith, long))
          (user_of-put_user w s1.users u here)
          (authenticate-free email password (user_by_email email s) u a) refl in
      (
        s1,
        s2,
        s3,
        w,
        login-plain v email password u s a plain role,
        change_role-admin (user_of u.id s1) u s1 here
            (subst (λ r. is_super r ≡ false) (sym role) refl) verified,
        entered,
        refl,
        plain,
      )
