-- ===== src/Services/Auth/Sessions/Login.antt =====
-- What a login guarantees, and what it tells about an account.
use wordotron_api.Prelude.{
  ◌≡◌, refl, sym, suc, true, false, none, some, [], arith, find?, is_none, or_else, ◌⊎◌, inl, inr,
  Bool-cases,
}
use mathlib.Core.Path.{subst}
use wordotron_api.Prelude.Exec.{ok, err, Exec, >>=-eq-ok, map_error, on_result-eq-ok, Result-cases}
use wordotron_api.Text.{GoString}
use wordotron_api.Errors.{
  GoError, internal_error, unauthorized_error, is, err_password_mismatch, bcrypt_mismatch, sentinel,
}
use wordotron_api.Models.{User}
use wordotron_api.Db.{UserRow}
use wordotron_api.Db.Users.{has_email}
use wordotron_api.Repository.Users.{get_by_email, to_domain_user, touch_last_login}
use wordotron_api.Repository.Users.Laws.{
  get_by_email-eq-ok, get_by_email_unknown, get_by_email_known, tables-get_by_email,
}
use wordotron_api.Auth.Session.{store_refresh_token}
use wordotron_api.Auth.Token.{generate_token_pair}
use wordotron_api.Auth.Password.{verify}
use wordotron_api.Services.World.{World, on_db}
use wordotron_api.Services.Auth.{
  Wiring, AuthResult, invalid_credentials, LoginInput, normalize_email, verify_password,
  issue_session, mint, store_refresh,
}
use wordotron_api.Services.Auth.Sessions.{admit, judge_password, judge_login, login}

module _ {S : Type 0} (wiring : Wiring S) where
  -- A session that was issued in `w`: the pair is generated for the user, and its refresh token stored.
  pub record IsIssued (user : User) (w after : World S) (r : AuthResult) : Type 0 where
    pub owner : r.user ≡ user
    pub pair :
        generate_token_pair wiring.jwt wiring.uuids wiring.manager
          (w.clock w.ticks)
          (w.uuid_at w.drawn)
          (w.uuid_at (suc w.drawn))
          user.id
          user.role
        ≡ ok r.tokens
    pub stored :
        (store_refresh_token wiring.redis wiring.uuids wiring.cfg.refresh_ttl
          (w.clock (suc w.ticks))
          user.id
          r.tokens.refresh_jti
          r.tokens.refresh_expires_at
          w.sessions).0
        ≡ ok tt
    pub sessions :
        after.sessions
        ≡ (store_refresh_token wiring.redis wiring.uuids wiring.cfg.refresh_ttl
            (w.clock (suc w.ticks))
            user.id
            r.tokens.refresh_jti
            r.tokens.refresh_expires_at
            w.sessions).1

  pub issue_session-IsIssued :
      (user : User) (w : World S) {r : AuthResult}
      → (issue_session wiring user w).0 ≡ ok r
      → IsIssued user w (issue_session wiring user w).1 r
  unfolding issue_session
  issue_session-IsIssued user w {r = r} h =
      let (pair, minted, rest, chain) =
        >>=-eq-ok (map_error internal_error (mint wiring user)) _ w h in
      let v : World S = (mint wiring user w).1 in
      let storing : Exec GoError (World S) (Unit {0}) =
        store_refresh wiring user.id pair.refresh_jti pair.refresh_expires_at in
      let (done, stored, made, chain') = >>=-eq-ok (map_error internal_error storing) _ v rest in
      let same : record { user = user; tokens = pair } ≡ r = cc in
      subst (IsIssued user w (issue_session wiring user w).1) same (record {
        owner = refl;
        pair = on_result-eq-ok internal_error (mint wiring user w).0 minted;
        stored = on_result-eq-ok internal_error (storing v).0 stored;
        sessions = rw (chain, chain') refl;
      })

  -- Some state in which a session was issued, with the session store still as it was.
  abbrev pub IsIssuedFrom : User → World S → World S → AuthResult → Type 0
  IsIssuedFrom user w after r =
      (before : World S) × (before.sessions ≡ w.sessions) × IsIssued user before after r

  abbrev touched : User → World S → World S
  touched user w = (on_db (touch_last_login user.id) w).1

  admitted :
      (user : User) (w : World S)
      → user.is_active ≡ true
      → is_none user.email_verified_at ≡ false
      → admit wiring user w ≡ issue_session wiring user (touched user w)
  admitted user w p q = ground arith

  admit-eq-ok :
      (user : User) (w : World S) {r : AuthResult}
      → (admit wiring user w).0 ≡ ok r
      → (user.is_active ≡ true)
        × (is_none user.email_verified_at ≡ false)
        × IsIssuedFrom user w (admit wiring user w).1 r
  admit-eq-ok user w {r = r} h = elim (Bool-cases user.is_active) [
    | inr p ↦ absurd (ground arith)
    | inl p ↦ elim (Bool-cases (is_none user.email_verified_at)) [
      | inl q ↦ absurd (ground arith)
      | inr q ↦ (
        p,
        q,
        (
          touched user w,
          refl,
          let same = admitted user w p q in
              rw same (issue_session-IsIssued user (touched user w) (rw same at h)),
        ),
      )
    ]
  ]

  verify-eq-ok :
      (hashed password : GoString)
      → verify_password wiring hashed password ≡ ok tt
      → wiring.bcrypt.compare hashed password ≡ ok tt
  unfolding verify
  verify-eq-ok hashed password h = ground arith

  judge_password-eq-ok :
      (user : User) (password : GoString) (w : World S) {r : AuthResult}
      → (judge_password wiring user (verify_password wiring user.password_hash password) w).0 ≡ ok r
      → (wiring.bcrypt.compare user.password_hash password ≡ ok tt)
        × ((judge_password wiring user (verify_password wiring user.password_hash password) w)
            ≡ admit wiring user w)
  judge_password-eq-ok user password w h =
      elim (Result-cases (verify_password wiring user.password_hash password)) [
        | inl (done, p) ↦ (verify-eq-ok user.password_hash password p, rw p refl)
        | inr (e, p) ↦ absurd (ground arith)
      ]

  -- What stands behind a login of a user.
  abbrev pub IsAdmitted : LoginInput → World S → World S → AuthResult → User → Type 0
  IsAdmitted input w after r user =
      (wiring.bcrypt.compare user.password_hash input.password ≡ ok tt)
      × (user.is_active ≡ true)
      × (is_none user.email_verified_at ≡ false)
      × IsIssuedFrom user w after r

  -- A login that ends well found the account of the email; the password matches its hash, it is
  -- active and its email verified, and the session is issued for it.
  pub login-eq-ok :
      (input : LoginInput) (w : World S) {r : AuthResult}
      → (login wiring input w).0 ≡ ok r
      → (row : UserRow) × (find? (has_email (normalize_email input.email)) w.db.tables.users
          ≡ some row)
        × IsAdmitted input w (login wiring input w).1 r (to_domain_user row)
  unfolding login
  login-eq-ok input w {r = r} h =
      let v : World S = (on_db (get_by_email (normalize_email input.email)) w).1 in
      elim (Result-cases (get_by_email (normalize_email input.email) w.db).0) [
        | inr (e, p) ↦ absurd (ground arith)
        | inl (user, p) ↦
            let (row, found, made) = get_by_email-eq-ok (normalize_email input.email) w.db p in
            let h' : (judge_login wiring input.password (ok user) v).0 ≡ ok r =
              rw (p, login) at h in
            let (matched, through) = judge_password-eq-ok user input.password v h' in
            let (active, verified, issued) = admit-eq-ok user v (rw through at h') in
            (
              row,
              found,
              subst (IsAdmitted input w (login wiring input w).1 r) (sym made) (
                matched,
                active,
                verified,
                let (before, kept, session) = issued in
                    (before, kept, rw (p, login, through) session),
              ),
            )
      ]

  -- An account that does not exist, or whose password is another one.
  abbrev pub IsStranger : LoginInput → World S → Type 0
  IsStranger input w =
      (find? (has_email (normalize_email input.email)) w.db.tables.users ≡ none)
      ⊎ ((row : UserRow) × (find? (has_email (normalize_email input.email)) w.db.tables.users
            ≡ some row)
          × ((e : GoError) × (wiring.bcrypt.compare (or_else row.password_hash []) input.password
                ≡ err e)
              × (is bcrypt_mismatch e ≡ true)))

  verify_mismatch :
      (hashed password : GoString) (e : GoError)
      → wiring.bcrypt.compare hashed password ≡ err e
      → is bcrypt_mismatch e ≡ true
      → verify_password wiring hashed password ≡ err (sentinel err_password_mismatch)
  unfolding verify
  verify_mismatch hashed password e p q = rw (p, q, verify) refl

  refused_alike :
      (input : LoginInput) (w : World S)
      → w.db.fault w.db.step ≡ none
      → IsStranger input w
      → login wiring input w
        ≡ (err invalid_credentials, (on_db (get_by_email (normalize_email input.email)) w).1)
  unfolding login verify get_by_email unauthorized_error
  refused_alike input w h (inl unknown) =
      let (e, failed, missing) =
        get_by_email_unknown (normalize_email input.email) w.db h unknown in
      rw (failed, missing) refl
  refused_alike input w h (inr (row, known, (e, mismatch, kind))) =
      rw
        (
          get_by_email_known (normalize_email input.email) w.db row h known,
          verify_mismatch (or_else row.password_hash []) input.password e mismatch kind,
        )
        refl

  -- Where the database answers, an email with no account and a wrong password are refused with the
  -- same error, and neither changes a table, a session or a link: the answer does not tell whether
  -- the account exists.
  pub login_refusal :
      (input : LoginInput) (w : World S)
      → w.db.fault w.db.step ≡ none
      → IsStranger input w
      → ((login wiring input w).0 ≡ err invalid_credentials)
        × ((login wiring input w).1.db.tables ≡ w.db.tables)
        × ((login wiring input w).1.sessions ≡ w.sessions)
        × ((login wiring input w).1.links ≡ w.links)
  login_refusal input w h stranger =
      let p = refused_alike input w h stranger in
      (
        rw p refl,
        rw p (tables-get_by_email (normalize_email input.email) w.db),
        rw p refl,
        rw p refl,
      )
