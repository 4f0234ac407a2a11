-- ===== src/Examples/Accounts.antt =====
-- Accounts and sessions, over a table of one account, a toy scrypt and a toy signer.
use collab_ide.Base.{
  ℕ, zero, suc, ◌+◌, ◌-◌, ◌≡◌, ◌≢◌, ◌↔◌, refl, arith, Bool, true, false, List, [], ◌∷◌, ◌++◌, map,
  Option, none, some, Str, text, length, ltb, split, join, ◌===◌, take, drop, if◌then◌else◌,
  includes_char, ok, err,
}
use collab_ide.Database.{Table}
use collab_ide.Database.Memory.{memory}
use collab_ide.Auth.Authorize.{User}
use collab_ide.Auth.Password.{
  Number, natural, no_integer, Crypto, default_key, encode, hash_password, verify_password,
  burn_verification_time,
}
use collab_ide.Auth.Password.Verify.{verify_password-hash_password}
use collab_ide.Auth.Accounts.{
  Account, Payload, Jwt, Session, same_account, session_of, invalid_credentials, register, login,
  require_auth,
}
use collab_ide.Auth.Accounts.Sessions.{login-register}

-- A key is the password and the salt, cut or filled up to its length.
abbrev fill : ℕ → List ℕ → List ℕ
fill zero xs = []
fill (suc n) [] = 0 ∷ fill n []
fill (suc n) (x ∷ xs) = x ∷ fill n xs

length-fill : (n : ℕ) (xs : List ℕ) → length (fill n xs) ≡ n
length-fill zero xs = refl
length-fill (suc n) [] = ground (arith, length-fill n [])
length-fill (suc n) (x ∷ xs) = ground (arith, length-fill n xs)

-- One character for a number, after the `$`.
abbrev raise : List ℕ → Str
raise bytes = map (λ b. b + 37) bytes

abbrev lower : Str → List ℕ
lower s = map (λ c. c - 37) s

lower-raise : (bytes : List ℕ) → lower (raise bytes) ≡ bytes
lower-raise [] = refl
lower-raise (b ∷ bytes) = ground (arith, lower-raise bytes)

raise_plain : (bytes : List ℕ) → includes_char (raise bytes) b'$' ≡ false
raise_plain [] = refl
raise_plain (b ∷ bytes) = ground (arith, raise_plain bytes)

abbrev one_number : Str → Number
one_number [] = no_integer
one_number (c ∷ cs) = natural (c - 37)

toy_crypto : Crypto
toy_crypto = record {
  scrypt = λ password salt keylen n r p maxmem. some (fill keylen (password ++ salt));
  to_base64 = raise;
  from_base64 = lower;
  print = λ n. raise (n ∷ []);
  number = one_number;
  length-scrypt = λ password salt keylen n r p maxmem key e.
      let same : fill keylen (password ++ salt) ≡ key = cc in
      let size = length-fill keylen (password ++ salt) in cc;
  within_bounds = λ password salt keylen k r p maxmem h1 h2 h3 h4 h5 h6 e. cc;
  decoded = lower-raise;
  read_back = λ n. ground arith;
  base64_plain = raise_plain;
  print_plain = λ n. raise_plain (n ∷ []);
}

take-append : (s t : Str) → take (length s) (s ++ t) ≡ s
take-append [] t = refl
take-append (c ∷ s) t = ground (arith, take-append s t)

drop-append : (s t : Str) → drop (length s) (s ++ t) ≡ t
drop-append [] t = refl
drop-append (c ∷ s) t = ground (arith, drop-append s t)

abbrev toy_verify : ℕ → Str → Option Payload
toy_verify now (issued ∷ age ∷ n ∷ rest) =
    if ltb now (issued + age)
    then some (record { sub = some (take n rest); email = some (drop n rest) })
    else none
toy_verify now token = none

toy_jwt : Jwt
toy_jwt = record {
  sign = λ sub email issued age. issued ∷ age ∷ length sub ∷ sub ++ email;
  verify = toy_verify;
  sign_some = λ sub email issued age. omega arith;
  signed = λ sub email issued age now after before.
      let soon : ltb now (issued + age) ≡ true = ground arith in
      rw (soon, take-append sub email, drop-append sub email) refl;
}

abbrev ada_email : Str
ada_email = text "ada@example.com"

abbrev passphrase : Str
passphrase = text "correct horse"

abbrev salt : List ℕ
salt = 7 ∷ 9 ∷ []

abbrev accounts : Table Account same_account
accounts = memory Account same_account

salt_some : length salt ≢ 0
salt_some = omega arith

abbrev ada : Account
ada = record {
  id = text "u1";
  email = ada_email;
  display_name = text "Ada";
  created_at = 5;
  password_hash = encode toy_crypto salt (fill 64 (passphrase ++ salt));
}

ada_registered :
    register accounts toy_crypto toy_jwt
      (text "u1")
      5
      salt
      100
      ada_email
      passphrase
      (text "Ada")
      []
      []
    ≡ ok (session_of toy_jwt 100 ada, ada ∷ [])
unfolding register hash_password text toy_crypto
ada_registered = refl

verify_password-hash_password_example :
    (hash : Str) × (hash_password toy_crypto salt passphrase ≡ ok hash)
    × (verify_password toy_crypto passphrase hash ≡ ok true)
    × ((other : Str)
        → (answer : Bool) × (verify_password toy_crypto other hash ≡ ok answer)
          × ((answer ≡ true)
              ↔ (default_key toy_crypto other salt ≡ default_key toy_crypto passphrase salt)))
verify_password-hash_password_example =
    verify_password-hash_password toy_crypto salt passphrase salt_some

-- The two errors of a login are one.
wrong_password :
    (login accounts toy_crypto toy_jwt salt 200 ada_email (text "not this one") (ada ∷ [])
      ≡ err invalid_credentials)
    × (login accounts toy_crypto toy_jwt salt 200 (text "bob@example.com") passphrase (ada ∷ [])
        ≡ err invalid_credentials)
unfolding login verify_password burn_verification_time hash_password split join text ◌===◌
    toy_crypto
wrong_password = (refl, refl)

login-register_example :
    (again : Session) × (user : User) × (login accounts toy_crypto toy_jwt salt 200 ada_email
        passphrase
        (ada ∷ [])
      ≡ ok again)
    × (again.user ≡ (session_of toy_jwt 100 ada).user)
    × (require_auth accounts toy_jwt 1000 (some ((session_of toy_jwt 100 ada).token)) (ada ∷ [])
        ≡ ok user)
    × (require_auth accounts toy_jwt 1000 (some again.token) (ada ∷ []) ≡ ok user)
    × (user.email ≡ ada_email)
login-register_example =
    login-register accounts toy_crypto toy_jwt (text "u1") 5 salt salt 100 ada_email passphrase
      (text "Ada") [] [] (ada ∷ []) (session_of toy_jwt 100 ada) 200 1000 salt_some ada_registered
      (omega arith) (omega arith) (omega arith) (omega arith)
