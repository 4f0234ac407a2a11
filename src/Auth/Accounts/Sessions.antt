-- ===== src/Auth/Accounts/Sessions.antt =====
-- Registering, logging in and the sessions that both give.
use collab_ide.Base.{
  ℕ, ◌+◌, ◌≤◌, ◌<◌, ◌≡◌, ◌≢◌, ◌⊎◌, inl, inr, refl, ap, sym, ◌∙◌, arith, Bool, true, false, List, [],
  ◌∷◌, ◌++◌, some, Str, ===_refl, any, find, length, ◌==◌, is_some, AppError, Result, ok, err,
  throw_if, or_throw, bind_ok, then_ok, create_ok, conflict, Bool-cases, Option-cases,
}
use collab_ide.Database.{Table, find_first}
use collab_ide.Database.Distinct.{create_inv}
use collab_ide.Auth.Authorize.{User}
use collab_ide.Auth.Password.{Crypto, hash_password, verify_password}
use collab_ide.Auth.Password.Verify.{verify_password-hash_password, burn_verification_time-ok}
use collab_ide.Auth.Accounts.{
  Account, same_account, has_email, has_id, Jwt, session_max_age_seconds, sign_token, verify_token,
  authed_user, email_taken, invalid_credentials, unauthenticated, Session, session_of,
  authenticate_token, require_auth, register, login,
}

-- A row that was added is the one that a test finds, where it found none before.
find-last :
    {A : Type 0} (q r : A → Bool) (a : A) (xs : List A)
    → ((x : A) → r x ≡ true → q x ≡ true)
    → r a ≡ true
    → any q xs ≡ false
    → find r (xs ++ a ∷ []) ≡ some a
find-last q r a [] h new none_yet = rw new refl
find-last q r a (x ∷ xs) h new none_yet = elim (Bool-cases (r x)) [
  | inl e ↦ let both = h x e in ground arith
  | inr e ↦ rw e (find-last q r a xs h new (ground arith))
]

Result-cases : {A : Type 0} (r : Result A) → ((a : A) × (r ≡ ok a)) ⊎ ((x : AppError) × (r ≡ err x))
Result-cases (ok a) = inl (a, refl)
Result-cases (err x) = inr (x, refl)

same_answer :
    {A B : Type 0} (x x' : A) (y y' : B)
    → ◌≡◌ {A = Result (A × B)} (ok (x, y)) (ok (x', y'))
    → (x ≡ x') × (y ≡ y')
same_answer x x' y y' e = (cc, cc)

module _ (t : Table Account same_account) (c : Crypto) (j : Jwt) where
  -- The account that a registration adds is found by its email and by its id.
  found_after :
      (a : Account) (d d' : t.Db)
      → t.create a d ≡ some d'
      → (find_first t (has_email a.email) d' ≡ some a) × (find_first t (has_id a.id) d' ≡ some a)
  found_after a d d' made =
      let (fresh, rows) = create_inv t a d made in
      (
        rw rows (
            find-last (same_account a) (has_email a.email) a (t.rows d) (λ x e. ground arith)
              (===_refl a.email) fresh),
        rw rows (
            find-last (same_account a) (has_id a.id) a (t.rows d) (λ x e. ground arith)
              (===_refl a.id) fresh),
      )

  -- A session's token names its account as long as it has not expired.
  session-authenticated :
      (a : Account) (d : t.Db) (issued now : ℕ)
      → find_first t (has_id a.id) d ≡ some a
      → issued ≤ now
      → now < issued + session_max_age_seconds
      → authenticate_token t j now ((session_of j issued a).token) d ≡ some (authed_user a)
  unfolding authenticate_token sign_token verify_token
  session-authenticated a d issued now found after before =
      let filled : (length (j.sign a.id a.email issued session_max_age_seconds) == 0) ≡ false =
        let ne = j.sign_some a.id a.email issued session_max_age_seconds in ground arith in
      rw (filled, j.signed a.id a.email issued session_max_age_seconds now after before, found) refl

  -- What a registration that succeeds has done.
  register-made :
      (id : Str) (created_at : ℕ) (salt : List ℕ) (now : ℕ) (email password display_name : Str)
      (d d' d'' : t.Db) (session : Session)
      → register t c j id created_at salt now email password display_name d d' ≡ ok (session, d'')
      → (a : Account) × (a.email ≡ email)
        × (hash_password c salt password ≡ ok a.password_hash)
        × (t.create a d' ≡ some d'')
        × (session ≡ session_of j now a)
  unfolding register
  register-made id created_at salt now email password display_name d d' d'' session e =
      let free =
        then_ok (throw_if (is_some (find_first t (has_email email) d)) email_taken) _ (session, d'')
          e in
      let (hash, hashed, rest) = bind_ok (hash_password c salt password) _ (session, d'') free.1 in
      let user : Account = record {
        id = id;
        email = email;
        display_name = display_name;
        created_at = created_at;
        password_hash = hash;
      } in
      let (made, created, answer) =
        bind_ok (or_throw (t.create user d') conflict) _ (session, d'') rest in
      let same = same_answer (session_of j now user) session made d'' answer in
      (
        user,
        refl,
        hashed,
        create_ok (t.create user d') conflict made created ∙ ap some same.1,
        sym same.0,
      )

  -- With a salt that is not empty, and at a moment after a registration and after a login, less than seven days
  -- after each: the account that the registration has made, whatever happened to the table between its two
  -- queries, is one that its email and password log in to, as the same user, and the tokens of both
  -- answers are accepted, for the user with that email.
  pub login-register :
      (id : Str) (created_at : ℕ) (salt dummy_salt : List ℕ) (now : ℕ)
      (email password display_name : Str) (d d' d'' : t.Db) (session : Session) (issued later : ℕ)
      → length salt ≢ 0
      → register t c j id created_at salt now email password display_name d d' ≡ ok (session, d'')
      → now ≤ later
      → later < now + session_max_age_seconds
      → issued ≤ later
      → later < issued + session_max_age_seconds
      → (again : Session) × (user : User) × (login t c j dummy_salt issued email password d''
          ≡ ok again)
        × (again.user ≡ session.user)
        × (require_auth t j later (some session.token) d'' ≡ ok user)
        × (require_auth t j later (some again.token) d'' ≡ ok user)
        × (user.email ≡ email)
  unfolding login require_auth
  login-register id created_at salt dummy_salt now email password display_name d d' d'' session
        issued later ne e after before after' before' =
      let (a, same_email, hashed, made, same) =
        register-made id created_at salt now email password display_name d d' d'' session e in
      let (by_email, by_id) = found_after a d' d'' made in
      let found : find_first t (has_email email) d'' ≡ some a = rw (← same_email) by_email in
      let (hash, hashed', own, others) = verify_password-hash_password c salt password ne in
      let verified : verify_password c password a.password_hash ≡ ok true =
        (let stored : ok a.password_hash ≡ ok hash = cc in
          let equal : a.password_hash ≡ hash = cc in rw equal own) in
      (
        session_of j issued a,
        authed_user a,
        rw (found, verified) refl,
        sym (ap (λ s. s.user) same),
        rw same (
            ap (λ o. or_throw o unauthenticated)
              (session-authenticated a d'' now later by_id after before)),
        ap (λ o. or_throw o unauthenticated)
            (session-authenticated a d'' issued later by_id after' before'),
        same_email,
      )

  -- With a dummy salt that is not empty, a login gives a session of the account that has the email and whose
  -- stored password accepts the password, or the one error that does not tell which of the two failed, or, where the verification of the
  -- password that is stored for that email is rejected, that rejection.
  pub login-cases :
      (dummy_salt : List ℕ) (now : ℕ) (email password : Str) (d : t.Db)
      → length dummy_salt ≢ 0
      → ((a : Account) × (login t c j dummy_salt now email password d ≡ ok (session_of j now a))
          × (find_first t (has_email email) d ≡ some a)
          × (verify_password c password a.password_hash ≡ ok true))
        ⊎ ((login t c j dummy_salt now email password d ≡ err invalid_credentials)
            ⊎ ((a : Account) × (x : AppError) × (login t c j dummy_salt now email password d
                  ≡ err x)
                × (find_first t (has_email email) d ≡ some a)
                × (verify_password c password a.password_hash ≡ err x)))
  unfolding login
  login-cases dummy_salt now email password d ne =
      elim (Option-cases (find_first t (has_email email) d)) [
        | inl e ↦
            let (answer, burnt) = burn_verification_time-ok c dummy_salt ne in
            inr (inl (rw (e, burnt) refl))
        | inr (a, e) ↦ elim (Result-cases (verify_password c password a.password_hash)) [
          | inl (true, v) ↦ inl (a, rw (e, v) refl, e, v)
          | inl (false, v) ↦ inr (inl (rw (e, v) refl))
          | inr (x, v) ↦ inr (inr (a, x, rw (e, v) refl, e, v))
        ]
      ]
