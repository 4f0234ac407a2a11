-- ===== src/Auth/Password.antt =====
-- apps/server/src/modules/auth/password.ts: scrypt$N$r$p$salt$hash.
use collab_ide.Base.{
  ℕ, ◌+◌, ◌^◌, ◌*◌, ◌<◌, ◌≤◌, ◌≡◌, ◌≢◌, Bool, true, false, not, ◌&&◌, ◌||◌, List, [], ◌∷◌, Option,
  none, some, Str, text, ◌===◌, split, join, length, ◌==◌, if◌then◌else◌, includes_char, AppError,
  Result, ok, err, ◌>>=◌, or_throw,
}
pub mod Verify

-- What `Number(text)` gives.
pub data Number : Type 0 where
  natural negative : ℕ → Number
  no_integer : Number

abbrev pub is_integer : Number → Bool
is_integer (natural n) = true
is_integer (negative n) = true
is_integer no_integer = false

-- scrypt, Base64 and the reading and printing of numbers: a natural number that is printed is read
-- back, bytes that are encoded are decoded, no such text holds a `$`, a key has the length that was
-- asked for, and scrypt gives one for costs within its bounds and its memory limit (none: it rejects).
pub record Crypto : Type 0 where
  -- password, salt, keylen, N, r, p, maxmem
  pub scrypt : Str → List ℕ → ℕ → Number → Number → Number → ℕ → Option (List ℕ)
  pub to_base64 : List ℕ → Str
  pub from_base64 : Str → List ℕ
  pub print : ℕ → Str
  pub number : Str → Number
  pub length-scrypt :
      (password : Str) (salt : List ℕ) (keylen : ℕ) (n r p : Number) (maxmem : ℕ) (key : List ℕ)
      → scrypt password salt keylen n r p maxmem ≡ some key
      → length key ≡ keylen
  pub within_bounds :
      (password : Str) (salt : List ℕ) (keylen k r p maxmem : ℕ)
      → 1 ≤ k
      → k < 16 * r
      → 1 ≤ r
      → 1 ≤ p
      → r * p < 1073741824
      → 128 * r * (2 ^ k + 2 + p) ≤ maxmem
      → scrypt password salt keylen (natural (2 ^ k)) (natural r) (natural p) maxmem ≢ none
  pub decoded : (bytes : List ℕ) → from_base64 (to_base64 bytes) ≡ bytes
  pub read_back : (n : ℕ) → number (print n) ≡ natural n
  pub base64_plain : (bytes : List ℕ) → includes_char (to_base64 bytes) b'$' ≡ false
  pub print_plain : (n : ℕ) → includes_char (print n) b'$' ≡ false

-- What the answer is to a rejection that is no AppError.
abbrev pub internal : AppError
internal = record {
  status = 500;
  code = text "INTERNAL_ERROR";
  message = text "Something went wrong";
}

abbrev pub prefix : Str
prefix = text "scrypt"

abbrev pub key_length : ℕ
key_length = 64

-- DEFAULT_PARAMS
abbrev pub default_n : ℕ
default_n = 2 ^ 15

abbrev pub default_r : ℕ
default_r = 8

abbrev pub default_p : ℕ
default_p = 1

abbrev pub max_mem : ℕ
max_mem = 96 * 1024 * 1024

module _ (c : Crypto) where
  abbrev pub default_key : Str → List ℕ → Option (List ℕ)
  default_key password salt =
      c.scrypt password salt key_length (natural default_n) (natural default_r) (natural default_p)
        max_mem

  abbrev pub encode : List ℕ → List ℕ → Str
  encode salt key = join b'$' (
      prefix
      ∷ c.print default_n
      ∷ c.print default_r
      ∷ c.print default_p
      ∷ c.to_base64 salt
      ∷ c.to_base64 key
      ∷ [])

  -- The salt is the random bytes.
  unfoldable pub hash_password : List ℕ → Str → Result Str
  hash_password salt password = do
    key ← or_throw (default_key password salt) internal
    ok (encode salt key)

  abbrev pub check_key : Str → Number → Number → Number → List ℕ → List ℕ → Result Bool
  check_key password n r p salt expected =
      if (not (is_integer n) || not (is_integer r) || not (is_integer p))
      then ok false
      else (if (length salt == 0) || (length expected == 0) then ok false else (do
        actual ← or_throw (c.scrypt password salt (length expected) n r p max_mem) internal
        ok ((length actual == length expected) && (actual === expected))))

  abbrev pub verify_parts : Str → List Str → Result Bool
  verify_parts password (kind ∷ n ∷ r ∷ p ∷ salt ∷ key ∷ []) =
      if kind === prefix
      then check_key password (c.number n) (c.number r) (c.number p) (c.from_base64 salt)
          (c.from_base64 key)
      else ok false
  verify_parts password parts = ok false

  unfoldable pub verify_password : Str → Str → Result Bool
  verify_password password encoded = verify_parts password (split b'$' encoded)

  -- The dummy hash, made from a text that is no password, with its own salt.
  unfoldable pub burn_verification_time : List ℕ → Result Bool
  burn_verification_time salt = do
    hash ← hash_password salt (text "an unused password, hashed once per process")
    verify_password (text "definitely not the password") hash
