-- ===== src/Auth/Accounts.antt =====
-- apps/server/src/modules/auth/routes.ts, token.ts, authenticate.ts and requireAuth.ts: accounts,
-- and the session tokens that name them. A body has passed its schema.
pub mod Sessions
use collab_ide.Base.{
  ℕ, ◌+◌, ◌*◌, ◌≤◌, ◌<◌, ◌≡◌, ◌≢◌, Bool, true, false, not, ◌||◌, List, Option, none, some, Str,
  text, ◌===◌, length, ◌==◌, if◌then◌else◌, is_some, AppError, Result, ok, err, ◌>>=◌, ◌>>◌,
  throw_if, or_throw, conflict, record_missing,
}
use collab_ide.Database.{Table, find_first}
use collab_ide.Auth.Authorize.{User}
use collab_ide.Auth.Password.{Crypto, hash_password, verify_password, burn_verification_time}

-- A row of User.
pub record Account : Type 0 where
  pub id : Str
  pub email : Str
  pub display_name : Str
  pub created_at : ℕ
  pub password_hash : Str

pub record PublicUser : Type 0 where
  pub id : Str
  pub email : Str
  pub display_name : Str
  pub created_at : ℕ

abbrev pub to_public_user : Account → PublicUser
to_public_user user = record {
  id = user.id;
  email = user.email;
  display_name = user.display_name;
  created_at = user.created_at;
}

-- The primary key and the unique index on the email.
abbrev pub same_account : Account → Account → Bool
same_account a b = (b.id === a.id) || (b.email === a.email)

abbrev pub has_email : Str → Account → Bool
has_email email a = a.email === email

abbrev pub has_id : Str → Account → Bool
has_id id a = a.id === id

-- The claims of a token, where they are strings.
pub record Payload : Type 0 where
  pub sub : Option Str
  pub email : Option Str

pub record SessionClaims : Type 0 where
  pub user_id : Str
  pub email : Str

-- SESSION_MAX_AGE_SECONDS
abbrev pub session_max_age_seconds : ℕ
session_max_age_seconds = 60 * 60 * 24 * 7

-- jose with the server's secret, at a time in seconds: a token that was signed is not empty, and it
-- is read back until its time has come.
pub record Jwt : Type 0 where
  -- subject, email, issued at, expires after
  pub sign : Str → Str → ℕ → ℕ → Str
  pub verify : ℕ → Str → Option Payload
  pub sign_some : (sub email : Str) (issued age : ℕ) → length (sign sub email issued age) ≢ 0
  pub signed :
      (sub email : Str) (issued age now : ℕ)
      → issued ≤ now
      → now < issued + age
      → verify now (sign sub email issued age)
        ≡ some (record { sub = some sub; email = some email })

module _ (j : Jwt) where
  unfoldable pub sign_token : ℕ → SessionClaims → Str
  sign_token now claims = j.sign claims.user_id claims.email now session_max_age_seconds

  abbrev pub string_claims : Option Str → Option Str → Option SessionClaims
  string_claims (some user_id) (some email) = some (record { user_id = user_id; email = email })
  string_claims (some user_id) none = none
  string_claims none email = none

  abbrev pub claims_of : Option Payload → Option SessionClaims
  claims_of none = none
  claims_of (some payload) = string_claims payload.sub payload.email

  -- none: it throws.
  unfoldable pub verify_token : ℕ → Str → Option SessionClaims
  verify_token now token = claims_of (j.verify now token)

abbrev pub authed_user : Account → User
authed_user a = record { id = a.id; email = a.email; display_name = a.display_name }

abbrev pub unauthenticated : AppError
unauthenticated = record {
  status = 401;
  code = text "UNAUTHENTICATED";
  message = text "Authentication required";
}

abbrev pub email_taken : AppError
email_taken = record {
  status = 409;
  code = text "EMAIL_TAKEN";
  message = text "That email is already registered";
}

abbrev pub invalid_credentials : AppError
invalid_credentials = record {
  status = 401;
  code = text "INVALID_CREDENTIALS";
  message = text "Email or password is incorrect";
}

-- The body of the answer and the session cookie.
pub record Session : Type 0 where
  pub user : PublicUser
  pub token : Str

abbrev pub session_of : Jwt → ℕ → Account → Session
session_of j now a = record {
  user = to_public_user a;
  token = sign_token j now (record { user_id = a.id; email = a.email });
}

module _ (t : Table Account same_account) (j : Jwt) where
  abbrev pub claimed_user : t.Db → Option SessionClaims → Option User
  claimed_user d none = none
  claimed_user d (some claims) = user_of (find_first t (has_id claims.user_id) d)
    where
      user_of : Option Account → Option User
      user_of none = none
      user_of (some a) = some (authed_user a)

  unfoldable pub authenticate_token : ℕ → Str → t.Db → Option User
  authenticate_token now token d =
      if length token == 0 then none else claimed_user d (verify_token j now token)

  -- The request's cookie, where it is a string; the user of the request.
  unfoldable pub require_auth : ℕ → Option Str → t.Db → Result User
  require_auth now none d = err unauthenticated
  require_auth now (some token) d = or_throw (authenticate_token now token d) unauthenticated

module _ (t : Table Account same_account) (c : Crypto) (j : Jwt) where
  -- The id, the time of creation and the salt are the ones that the libraries make. The password is
  -- hashed between the two queries, so they may see different states, `d` and `d'`.
  unfoldable pub register :
      Str → ℕ → List ℕ → ℕ → Str → Str → Str → t.Db → t.Db → Result (Session × t.Db)
  register id created_at salt now email password display_name d d' = do
    throw_if (is_some (find_first t (has_email email) d)) email_taken
    password_hash ← hash_password c salt password
    let user : Account = record {
      id = id;
      email = email;
      display_name = display_name;
      created_at = created_at;
      password_hash = password_hash;
    }
    d'' ← or_throw (t.create user d') conflict
    ok (session_of j now user, d'')

  -- With the row of the email.
  abbrev pub login_user : List ℕ → ℕ → Str → Option Account → Result Session
  login_user dummy_salt now password none = do
    burnt ← burn_verification_time c dummy_salt
    err invalid_credentials
  login_user dummy_salt now password (some user) = do
    verified ← verify_password c password user.password_hash
    throw_if (not verified) invalid_credentials
    ok (session_of j now user)

  unfoldable pub login : List ℕ → ℕ → Str → Str → t.Db → Result Session
  login dummy_salt now email password d =
      login_user dummy_salt now password (find_first t (has_email email) d)

-- GET /me
unfoldable pub me : (t : Table Account same_account) → User → t.Db → Result PublicUser
me t user d = do
  row ← or_throw (find_first t (has_id user.id) d) record_missing
  ok (to_public_user row)
