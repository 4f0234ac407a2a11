-- ===== src/Base/Substring.antt =====
-- Substrings of a JavaScript string: `indexOf`, `slice`, `at`, and iteration by code points.
use Prim.Native.Nat.{ℕ, zero, suc, ◌+◌, ◌-◌, ◌≤◌, min}
use mathlib.Core.Path.{◌≡◌, refl, sym, ap, ◌∙◌}
use mathlib.Core.Logic.{inl, inr}
use mathlib.Core.Bool.{Bool, true, false, ◌&&◌}
use mathlib.Core.List.{List, [], ◌∷◌}
use mathlib.Core.Option.{Option, none, some}
use native.Mathlib.Omega.{arith}
use collab_ide.Base.Tests.{leb, leb→le, if◌then◌else◌, Bool-cases}
use collab_ide.Base.Lists.{length, take, drop}
use collab_ide.Base.Text.{Str, starts_with}

-- `s.indexOf(needle)` on a suffix `s` that starts at position `i`.
unfoldable pub index_from : Str → Str → ℕ → Option ℕ
index_from needle [] i = if starts_with [] needle then some i else none
index_from needle (c ∷ s) i =
    let rest = index_from needle s (suc i) in if starts_with (c ∷ s) needle then some i else rest

-- `s.indexOf(needle, position)`; none for -1.
unfoldable pub index_of : Str → Str → ℕ → Option ℕ
unfolding index_from
index_of needle s position = index_from needle (drop position s) (min position (length s))

-- `s.slice(start, end)` for positions that are not negative.
abbrev pub slice : Str → ℕ → ℕ → Str
slice s start end = take (end - start) (drop start s)

-- `s.charCodeAt(i)`; none for NaN.
abbrev pub char_code_at : Str → ℕ → Option ℕ
char_code_at [] i = none
char_code_at (c ∷ s) zero = some c
char_code_at (c ∷ s) (suc i) = char_code_at s i

-- `for (const char of s)`: a surrogate pair is one element of two units.
abbrev pub is_high_surrogate : ℕ → Bool
is_high_surrogate c = leb 0xd800 c && leb c 0xdbff

abbrev pub is_low_surrogate : ℕ → Bool
is_low_surrogate c = leb 0xdc00 c && leb c 0xdfff

unfoldable pub code_points : Str → List Str
code_points [] = []
code_points (c ∷ []) = (c ∷ []) ∷ []
code_points (c ∷ d ∷ s) =
    let pair = code_points s in
    let single = code_points (d ∷ s) in
    if is_high_surrogate c && is_low_surrogate d then (c ∷ d ∷ []) ∷ pair else (c ∷ []) ∷ single

pub length-drop : (n : ℕ) (s : Str) → length (drop n s) ≡ length s - n
length-drop zero s = omega arith
length-drop (suc n) [] = omega arith
length-drop (suc n) (c ∷ s) = omega (arith, length-drop n s)

drop_nil : (n : ℕ) → drop {A = ℕ} n [] ≡ []
drop_nil zero = refl
drop_nil (suc n) = refl

pub drop_add : (m n : ℕ) (s : Str) → drop n (drop m s) ≡ drop (m + n) s
drop_add zero n s = ap (λ k. drop k s) (omega arith)
drop_add (suc m) n [] = drop_nil n ∙ sym (drop_nil (suc m + n))
drop_add (suc m) n (c ∷ s) = let e : suc m + n ≡ suc (m + n) = omega arith in rw e (drop_add m n s)

pub starts_with-length : (s p : Str) → starts_with s p ≡ true → length p ≤ length s
unfolding starts_with
starts_with-length s [] h = omega arith
starts_with-length [] (c ∷ p) h = cc
starts_with-length (d ∷ s) (c ∷ p) h = ground (arith, starts_with-length s p)

pub starts_with-take : (s p : Str) → starts_with s p ≡ true → take (length p) s ≡ p
unfolding starts_with
starts_with-take s [] h = refl
starts_with-take [] (c ∷ p) h = cc
starts_with-take (d ∷ s) (c ∷ p) h = ground (arith, starts_with-take s p)

-- What a hit of the scan is: the first position at which the needle stands.
pub index_from_found :
    (needle s : Str) (i j : ℕ)
    → index_from needle s i ≡ some j
    → (k : ℕ) × (j ≡ i + k) × (k ≤ length s) × (starts_with (drop k s) needle ≡ true)
unfolding index_from
index_from_found needle [] i j e = (0, ground arith, omega arith, ground arith)
index_from_found needle (c ∷ s) i j e = elim (Bool-cases (starts_with (c ∷ s) needle)) [
  | inl h ↦ (0, ground arith, omega arith, h)
  | inr h ↦
      let (k, at, le, starts) = index_from_found needle s (suc i) j (rw h at e) in
      (suc k, omega arith, omega arith, starts)
]

pub index_of_found :
    (needle s : Str) (position j : ℕ)
    → position ≤ length s
    → index_of needle s position ≡ some j
    → (position ≤ j) × (j ≤ length s) × (starts_with (drop j s) needle ≡ true)
unfolding index_of
index_of_found needle s position j le e =
    let (k, at, in_range, starts) =
      index_from_found needle (drop position s) (min position (length s)) j e in
    let here : j ≡ position + k = omega arith in
    let size = length-drop position s in
    (omega arith, omega arith, rw (here, ← drop_add position k s) starts)

-- The hit is the first one from the position on.
pub index_from_first :
    (needle s : Str) (i j k : ℕ)
    → index_from needle s i ≡ some j
    → starts_with (drop k s) needle ≡ true
    → k ≤ length s
    → j ≤ i + k
unfolding index_from
index_from_first needle [] i j k e h le = ground arith
index_from_first needle (c ∷ s) i j zero e h le = let same : i ≡ j = cc (rw h at e) in omega arith
index_from_first needle (c ∷ s) i j (suc k) e h le =
    elim (Bool-cases (starts_with (c ∷ s) needle)) [
      | inl here ↦ let same : i ≡ j = cc (rw here at e) in omega arith
      | inr later ↦
          omega (arith, index_from_first needle s (suc i) j k (rw later at e) h (omega arith))
    ]

pub index_from-none :
    (needle s : Str) (i k : ℕ)
    → index_from needle s i ≡ none
    → k ≤ length s
    → starts_with (drop k s) needle ≡ false
unfolding index_from
index_from-none needle [] i zero e le = ground arith
index_from-none needle [] i (suc k) e le = absurd (omega arith)
index_from-none needle (c ∷ s) i zero e le = ground arith
index_from-none needle (c ∷ s) i (suc k) e le = elim (Bool-cases (starts_with (c ∷ s) needle)) [
  | inl here ↦ cc (rw here at e)
  | inr later ↦ index_from-none needle s (suc i) k (rw later at e) (omega arith)
]

pub index_of_first :
    (needle s : Str) (position j p : ℕ)
    → index_of needle s position ≡ some j
    → position ≤ p
    → p ≤ length s
    → starts_with (drop p s) needle ≡ true
    → j ≤ p
unfolding index_of
index_of_first needle s position j p e after le h =
    let there : position + (p - position) ≡ p = omega arith in
    let size = length-drop position s in
    omega (
      arith,
      index_from_first needle (drop position s) (min position (length s)) j (p - position) e
          (rw (drop_add position (p - position) s, there) h) (omega arith),
    )

pub index_of-none :
    (needle s : Str) (position p : ℕ)
    → index_of needle s position ≡ none
    → position ≤ p
    → p ≤ length s
    → starts_with (drop p s) needle ≡ false
unfolding index_of
index_of-none needle s position p e after le =
    let there : position + (p - position) ≡ p = omega arith in
    let size = length-drop position s in
    let missed =
      index_from-none needle (drop position s) (min position (length s)) (p - position) e
        (omega arith) in
    rw (drop_add position (p - position) s, there) at missed

-- A needle that is not empty is only found from a position in the string.
drop_past : (n : ℕ) (s : Str) → length s ≤ n → drop n s ≡ []
drop_past zero [] h = refl
drop_past zero (c ∷ s) h = absurd (omega arith)
drop_past (suc n) [] h = refl
drop_past (suc n) (c ∷ s) h = drop_past n s (omega arith)

pub index_of_in_range :
    (c : ℕ) (needle s : Str) (position j : ℕ)
    → index_of (c ∷ needle) s position ≡ some j
    → position ≤ length s
unfolding index_of index_from starts_with
index_of_in_range c needle s position j e = elim (Bool-cases (leb position (length s))) [
  | inl h ↦ leb→le position (length s) h
  | inr h ↦ let past = drop_past position s (ground arith) in absurd (cc (rw past at e))
]
