-- ===== src/Search/Contents/Snippets.antt =====
-- Slices and single units of strings, for the snippets of `matchContent`.
use collab_ide.Base.{
  ℕ, zero, suc, ◌+◌, ◌≤◌, ◌<◌, ◌≡◌, ◌≢◌, inl, inr, refl, ap, arith, true, false, [], ◌∷◌, ◌++◌, map,
  some, Str, length, take, drop, starts_with, includes_char, is_space, trim_start, char_code_at,
  Bool-cases,
}
use collab_ide.Search.Contents.{indent_of}

pub take-drop-take :
    (n d k : ℕ) (s : Str) → d + n ≤ k → take n (drop d (take k s)) ≡ take n (drop d s)
take-drop-take n zero zero s h = let e : n ≡ 0 = omega arith in rw e refl
take-drop-take zero zero (suc k) s h = refl
take-drop-take (suc n) zero (suc k) [] h = refl
take-drop-take (suc n) zero (suc k) (c ∷ s) h = ap (◌∷◌ c) (take-drop-take n zero k s (omega arith))
take-drop-take n (suc d) zero s h = absurd (omega arith)
take-drop-take n (suc d) (suc k) [] h = refl
take-drop-take n (suc d) (suc k) (c ∷ s) h = take-drop-take n d k s (omega arith)

pub take-drop_append :
    (n d : ℕ) (s t : Str) → d + n ≤ length s → take n (drop d (s ++ t)) ≡ take n (drop d s)
take-drop_append zero d s t h = refl
take-drop_append (suc n) zero [] t h = absurd (omega arith)
take-drop_append (suc n) zero (c ∷ s) t h = ap (◌∷◌ c) (take-drop_append n zero s t (omega arith))
take-drop_append (suc n) (suc d) [] t h = absurd (omega arith)
take-drop_append (suc n) (suc d) (c ∷ s) t h = take-drop_append (suc n) d s t (omega arith)

pub drop_past_prefix : (p s : Str) (d : ℕ) → drop (length p + d) (p ++ s) ≡ drop d s
drop_past_prefix [] s d = let e : 0 + d ≡ d = omega arith in rw e refl
drop_past_prefix (c ∷ p) s d =
    let e : suc (length p) + d ≡ suc (length p + d) = omega arith in rw e (drop_past_prefix p s d)

-- A unit that is no space bounds the indent.
pub indent_bound :
    (s : Str) (k c : ℕ) → char_code_at s k ≡ some c → is_space c ≡ false → indent_of s ≤ k
unfolding trim_start
indent_bound [] k c e h = cc
indent_bound (d ∷ s) zero c e h = let same : d ≡ c = cc in rw (same, h, indent_of) (omega arith)
indent_bound (d ∷ s) (suc k) c e h = elim (Bool-cases (is_space d)) [
  | inl sp ↦ let rest = indent_bound s k c e h in rw (sp, indent_of) (omega arith)
  | inr nsp ↦ rw (nsp, indent_of) (omega arith)
]

pub char_code_at-drop : (n k : ℕ) (s : Str) → char_code_at (drop n s) k ≡ char_code_at s (n + k)
char_code_at-drop zero k s = let e : 0 + k ≡ k = omega arith in rw e refl
char_code_at-drop (suc n) k [] = refl
char_code_at-drop (suc n) k (c ∷ s) =
    let e : suc n + k ≡ suc (n + k) = omega arith in rw e (char_code_at-drop n k s)

pub char_code_at-take : (n k : ℕ) (s : Str) → k < n → char_code_at (take n s) k ≡ char_code_at s k
char_code_at-take zero k s h = absurd (omega arith)
char_code_at-take (suc n) k [] h = refl
char_code_at-take (suc n) zero (c ∷ s) h = refl
char_code_at-take (suc n) (suc k) (c ∷ s) h = char_code_at-take n k s (omega arith)

pub char_code_at-some : (s : Str) (k : ℕ) → k < length s → (c : ℕ) × (char_code_at s k ≡ some c)
char_code_at-some [] k h = absurd (omega arith)
char_code_at-some (c ∷ s) zero h = (c, refl)
char_code_at-some (c ∷ s) (suc k) h = char_code_at-some s k (omega arith)

pub char_code_at-map :
    (f : ℕ → ℕ) (s : Str) (k c : ℕ)
    → char_code_at s k ≡ some c
    → char_code_at (map f s) k ≡ some (f c)
char_code_at-map f [] k c e = cc
char_code_at-map f (d ∷ s) zero c e = let same : d ≡ c = cc in rw same refl
char_code_at-map f (d ∷ s) (suc k) c e = char_code_at-map f s k c e

pub starts_with-char_code_at :
    (s p : Str) (k : ℕ)
    → starts_with s p ≡ true
    → k < length p
    → char_code_at s k ≡ char_code_at p k
unfolding starts_with
starts_with-char_code_at s [] k h lt = absurd (omega arith)
starts_with-char_code_at [] (c ∷ p) k h lt = cc
starts_with-char_code_at (d ∷ s) (c ∷ p) zero h lt = let same : d ≡ c = ground arith in rw same refl
starts_with-char_code_at (d ∷ s) (c ∷ p) (suc k) h lt =
    starts_with-char_code_at s p k (ground arith) (omega arith)

pub includes_char-at :
    (s : Str) (k c d : ℕ) → includes_char s c ≡ false → char_code_at s k ≡ some d → d ≢ c
includes_char-at [] k c d h e = cc
includes_char-at (x ∷ s) zero c d h e = λ same. absurd (ground arith)
includes_char-at (x ∷ s) (suc k) c d h e = includes_char-at s k c d (ground arith) e
