-- ===== src/Client/Reconnect.antt =====
-- apps/web/src/features/collab/reconnect.ts.
use collab_ide.Base.{
  ℕ, zero, suc, ◌+◌, ◌*◌, ◌^◌, ◌≤◌, min, ◌≡◌, refl, arith, Bool, List, [], ◌∷◌, any, ◌==◌,
}

abbrev pub base_delay_ms : ℕ
base_delay_ms = 500

abbrev pub max_delay_ms : ℕ
max_delay_ms = 15000

abbrev pub terminal : List ℕ
terminal = 4400 ∷ 4401 ∷ 4403 ∷ 4404 ∷ 4409 ∷ []

abbrev pub is_terminal_close : ℕ → Bool
is_terminal_close code = any (λ c. c == code) terminal

abbrev pub ceiling : ℕ → ℕ
ceiling attempt = min max_delay_ms (base_delay_ms * 2 ^ attempt)

-- `Math.random() * ceiling`: the sample below a number is the browser's.
abbrev pub backoff_delay : (ℕ → ℕ) → ℕ → ℕ
backoff_delay sample attempt = sample (ceiling attempt)

two_pow_suc : (n : ℕ) → 2 ^ suc n ≡ 2 * 2 ^ n
two_pow_suc n = omega arith

two_pow-ge : (n : ℕ) → 32 ≤ 2 ^ (5 + n)
two_pow-ge zero = omega arith
two_pow-ge (suc n) =
    let e : 5 + suc n ≡ suc (5 + n) = omega arith in
    rw (e, two_pow_suc (5 + n)) (omega (arith, two_pow-ge n))

-- The ceiling of the delay starts at 500 ms, doubles until it is 15 seconds, and stays there from the
-- sixth attempt on.
pub ceiling_doubles :
    (attempt : ℕ)
    → (ceiling 0 ≡ 500)
      × (ceiling (suc attempt) ≡ min max_delay_ms (2 * ceiling attempt))
      × (ceiling (5 + attempt) ≡ max_delay_ms)
ceiling_doubles attempt =
    let double = two_pow_suc attempt in
    (refl, rw double (omega arith), omega (arith, two_pow-ge attempt))
