-- ===== src/Search/Contents/Lines.antt =====
-- The lines that `matchContent` reports.
use collab_ide.Base.{
  ℕ, zero, suc, ◌+◌, ◌-◌, ◌≤◌, ◌<◌, ◌≡◌, inl, inr, refl, arith, true, false, [], ◌∷◌, Str, length,
  take, drop, starts_with, index_of, index_of_found, index_of_first, index_of-none, count,
  Bool-cases, Option-cases, char_code_at, ◌==◌, if◌then◌else◌,
}
use collab_ide.Search.Contents.{Walk, newline, is_newline, walk_step, walk_to, line_end_of}

abbrev pub line_breaks : Str → ℕ
line_breaks s = count (λ c. c == newline) s

-- The line, from 1, of a position.
abbrev pub line_at : Str → ℕ → ℕ
line_at s i = suc (line_breaks (take i s))

pub line_at-suc :
    (s : Str) (i : ℕ)
    → line_at s (suc i) ≡ (if is_newline (char_code_at s i) then suc (line_at s i) else line_at s i)
line_at-suc [] zero = refl
line_at-suc [] (suc i) = refl
line_at-suc (c ∷ s) zero = ground arith
line_at-suc (c ∷ s) (suc i) = ground (arith, line_at-suc s i)

pub line_at_mono : (s : Str) (i n : ℕ) → line_at s i ≤ line_at s (i + n)
line_at_mono s i zero = let e : i + 0 ≡ i = omega arith in rw e (omega arith)
line_at_mono s i (suc n) =
    let e : i + suc n ≡ suc (i + n) = omega arith in
    let step = line_at-suc s (i + n) in rw e (ground (arith, line_at_mono s i n, step))

-- The walk knows the line that it stands in.
abbrev pub Placed : Str → Walk → Type 0
Placed content w = (w.line ≡ line_at content w.scanned) × (w.line_start ≤ w.scanned)

walk_step-Placed :
    (content : Str) (w : Walk) → Placed content w → Placed content (walk_step content w)
walk_step-Placed content w (at, le) =
    elim (Bool-cases (is_newline (char_code_at content w.scanned))) [
      | inl h ↦ let step = line_at-suc content w.scanned in rw h (ground arith, omega arith)
      | inr h ↦ let step = line_at-suc content w.scanned in rw h (ground arith, omega arith)
    ]

pub walk_step-scanned : (content : Str) (w : Walk) → (walk_step content w).scanned ≡ suc w.scanned
walk_step-scanned content w = ground arith

pub walk_to-Placed :
    (n : ℕ) (content : Str) (w : Walk)
    → Placed content w
    → Placed content (walk_to n content w) × ((walk_to n content w).scanned ≡ w.scanned + n)
unfolding walk_to
walk_to-Placed zero content w h = (h, omega arith)
walk_to-Placed (suc n) content w h =
    let (placed, at) =
      walk_to-Placed n content (walk_step content w) (walk_step-Placed content w h) in
    let step = walk_step-scanned content w in (placed, omega arith)

newline_test :
    (s : Str) (i : ℕ) → is_newline (char_code_at s i) ≡ starts_with (drop i s) (newline ∷ [])
unfolding starts_with
newline_test [] zero = refl
newline_test [] (suc i) = refl
newline_test (c ∷ s) zero = ground arith
newline_test (c ∷ s) (suc i) = newline_test s i

-- Before the end of a line there is no line break.
pub before_line_end :
    (s : Str) (found i : ℕ)
    → found ≤ i
    → i < line_end_of s found
    → i ≤ length s
    → is_newline (char_code_at s i) ≡ false
before_line_end s found i after lt in_s =
    rw (newline_test s i) (elim (Option-cases (index_of (newline ∷ []) s found)) [
      | inl none_found ↦ index_of-none (newline ∷ []) s found i none_found after in_s
      | inr (j, at) ↦ elim (Bool-cases (starts_with (drop i s) (newline ∷ []))) [
        | inl h ↦
            let first = index_of_first (newline ∷ []) s found j i at after in_s h in
            absurd (omega (arith, rw (at, line_end_of) at lt))
        | inr h ↦ h
      ]
    ])

pub line_end-ge :
    (s : Str) (found : ℕ)
    → found ≤ length s
    → (found ≤ line_end_of s found) × (line_end_of s found ≤ length s)
line_end-ge s found le = elim (Option-cases (index_of (newline ∷ []) s found)) [
  | inl e ↦ rw (e, line_end_of) (le, omega arith)
  | inr (j, e) ↦
      let (after, in_s, starts) = index_of_found (newline ∷ []) s found j le e in
      rw (e, line_end_of) (after, in_s)
]

line_at-within :
    (s : Str) (found n : ℕ)
    → found + n ≤ line_end_of s found
    → found ≤ length s
    → line_at s (found + n) ≡ line_at s found
line_at-within s found zero h le = let e : found + 0 ≡ found = omega arith in rw e refl
line_at-within s found (suc n) h le =
    let e : found + suc n ≡ suc (found + n) = omega arith in
    let (after, in_s) = line_end-ge s found le in
    let no_break = before_line_end s found (found + n) (omega arith) (omega arith) (omega arith) in
    let step = line_at-suc s (found + n) in
    let rest = line_at-within s found n (omega arith) le in rw (e, step, no_break) rest

pub line_at-line_end :
    (s : Str) (found p : ℕ)
    → found ≤ p
    → p ≤ line_end_of s found
    → found ≤ length s
    → line_at s p ≡ line_at s found
line_at-line_end s found p after le in_s =
    let e : found + (p - found) ≡ p = omega arith in
    let same = line_at-within s found (p - found) (rw e le) in_s in rw e at same

-- The next line, when there is one, has the next number.
pub line_at-next :
    (s : Str) (found : ℕ)
    → found ≤ length s
    → suc (line_end_of s found) ≤ length s
    → line_at s (suc (line_end_of s found)) ≡ suc (line_at s found)
line_at-next s found le more = elim (Option-cases (index_of (newline ∷ []) s found)) [
  | inl e ↦ absurd (omega (arith, rw (e, line_end_of) at more))
  | inr (j, e) ↦
      let (after, in_s, starts) = index_of_found (newline ∷ []) s found j le e in
      let break : is_newline (char_code_at s j) ≡ true = rw (newline_test s j) starts in
      let same : line_end_of s found ≡ j = rw (e, line_end_of) refl in
      let here = line_at-line_end s found j after (rw same (omega arith)) le in
      rw (same, line_at-suc s j, break, here) refl
]
