-- ===== src/Search/Names/Greedy.antt =====
-- The greedy scan of `subsequenceRanges` against the relation that it decides.
use collab_ide.Base.{
  ℕ, zero, suc, ◌+◌, ◌≤◌, ◌≡◌, ◌≢◌, inl, inr, refl, arith, true, false, List, [], ◌∷◌, Option, some,
  Str, length, drop, starts_with, index_from, index_of, index_of_found, All, min, Bool-cases,
  Option-cases, is_some, drop_add, index_of_in_range, ◌<◌, ◌-◌, starts_with-length, length-drop,
}
use collab_ide.Search.Names.{Range, scan_chars, first_or, push_range}

-- The characters stand in the string in this order, each one after the first unit of the one before.
pub data Scattered : List Str → Str → Type 0 where
  all_found : {s : Str} → Scattered [] s
  skip : {chars : List Str} {s : Str} {x : ℕ} → Scattered chars s → Scattered chars (x ∷ s)
  stand :
      {char : Str} {chars : List Str} {s : Str} {x : ℕ}
      → starts_with (x ∷ s) char ≡ true
      → Scattered chars s
      → Scattered (char ∷ chars) (x ∷ s)

pub Scattered-drop :
    (n : ℕ) (chars : List Str) (s : Str) → Scattered chars (drop n s) → Scattered chars s
Scattered-drop zero chars s p = p
Scattered-drop (suc n) chars [] p = p
Scattered-drop (suc n) chars (x ∷ s) p = skip (Scattered-drop n chars s p)

pub Scattered-tail :
    (char : Str) (chars : List Str) (s : Str) → Scattered (char ∷ chars) s → Scattered chars s
Scattered-tail char chars [] p = elim p [ ]
Scattered-tail char chars (x ∷ s) (skip p) = skip (Scattered-tail char chars s p)
Scattered-tail char chars (x ∷ s) (stand h p) = skip p

pub Scattered-at :
    (k : ℕ) (char : Str) (chars : List Str) (s : Str)
    → char ≢ []
    → starts_with (drop k s) char ≡ true
    → Scattered chars (drop (suc k) s)
    → Scattered (char ∷ chars) s
unfolding starts_with
Scattered-at k [] chars s ne h p = absurd (ne refl)
Scattered-at zero (c ∷ char) chars [] ne h p = cc
Scattered-at (suc k) (c ∷ char) chars [] ne h p = cc
Scattered-at zero (c ∷ char) chars (x ∷ s) ne h p = stand h p
Scattered-at (suc k) (c ∷ char) chars (x ∷ s) ne h p =
    skip (Scattered-at k (c ∷ char) chars s ne h p)

-- The first place of a character leaves the most of the string for the next ones.
index_from-Scattered :
    (char : Str) (chars : List Str) (s : Str) (i : ℕ)
    → Scattered (char ∷ chars) s
    → (k : ℕ) × (index_from char s i ≡ some (i + k)) × Scattered chars (drop (suc k) s)
unfolding index_from
index_from-Scattered char chars [] i p = elim p [ ]
index_from-Scattered char chars (x ∷ s) i p = elim (Bool-cases (starts_with (x ∷ s) char)) [
  | inl h ↦ (0, ground arith, after_first p)
  | inr h ↦
      let (k, at, q) = index_from-Scattered char chars s (suc i) (after_miss h p) in
      let e : suc i + k ≡ i + suc k = omega arith in (suc k, rw (h, at, e), q)
]
  where
    after_first : Scattered (char ∷ chars) (x ∷ s) → Scattered chars s
    after_first (skip q) = Scattered-tail char chars s q
    after_first (stand h q) = q

    after_miss :
        starts_with (x ∷ s) char ≡ false
        → Scattered (char ∷ chars) (x ∷ s)
        → Scattered (char ∷ chars) s
    after_miss h (skip q) = q
    after_miss h (stand k q) = cc

-- A character that is found stands at or after the cursor, inside of the string.
pub index_of_lt :
    (needle s : Str) (position j : ℕ)
    → needle ≢ []
    → index_of needle s position ≡ some j
    → (position ≤ length s) × (position ≤ j) × (j < length s)
index_of_lt [] s position j ne e = absurd (ne refl)
index_of_lt (c ∷ needle) s position j ne e =
    let le = index_of_in_range c needle s position j e in
    let (after, in_range, starts) = index_of_found (c ∷ needle) s position j le e in
    let room = starts_with-length (drop j s) (c ∷ needle) starts in
    let size = length-drop j s in (le, after, omega arith)

index_of-Scattered :
    (char : Str) (chars : List Str) (s : Str) (cursor : ℕ)
    → cursor ≤ length s
    → Scattered (char ∷ chars) (drop cursor s)
    → (j : ℕ) × (index_of char s cursor ≡ some j) × Scattered chars (drop (suc j) s)
unfolding index_of
index_of-Scattered char chars s cursor le p =
    let (k, at, q) = index_from-Scattered char chars (drop cursor s) (min cursor (length s)) p in
    let e : cursor + suc k ≡ suc (min cursor (length s) + k) = omega arith in
    (min cursor (length s) + k, at, rw (← e, ← drop_add cursor (suc k) s) q)

Scattered-of_index :
    (char : Str) (chars : List Str) (s : Str) (cursor j : ℕ)
    → char ≢ []
    → index_of char s cursor ≡ some j
    → Scattered chars (drop (suc j) s)
    → Scattered (char ∷ chars) (drop cursor s)
Scattered-of_index char chars s cursor j ne e p =
    let (le, after, lt) = index_of_lt char s cursor j ne e in
    let (after, in_range, starts) = index_of_found char s cursor j le e in
    let k : cursor + (j - cursor) ≡ j = omega arith in
    let k' : cursor + suc (j - cursor) ≡ suc j = omega arith in
    Scattered-at (j - cursor) char chars (drop cursor s) ne
      (rw (drop_add cursor (j - cursor) s, k) starts)
      (rw (drop_add cursor (suc (j - cursor)) s, k') p)

-- The greedy scan is right: the characters that it finds stand in the string in this order.
pub scan_chars-Scattered :
    (s : Str) (size : ℕ) (chars : List Str) (cursor : ℕ) (first : Option ℕ) (ranges : List Range)
    → All (λ char. char ≢ []) chars
    → is_some (scan_chars s size chars cursor first ranges) ≡ true
    → Scattered chars (drop cursor s)
unfolding scan_chars
scan_chars-Scattered s size [] cursor first ranges h e = all_found
scan_chars-Scattered s size (char ∷ chars) cursor first ranges (ne, h) e =
    elim (Option-cases (index_of char s cursor)) [
      | inl none_found ↦ cc (rw (none_found, scan_chars, is_some) at e)
      | inr (j, at) ↦ Scattered-of_index char chars s cursor j ne at (
          scan_chars-Scattered s size chars (suc j) (first_or first j) (push_range ranges j) h
            (rw (at, scan_chars, is_some) at e))
    ]

-- The greedy scan is complete: it succeeds when some choice of places exists.
pub Scattered-scan_chars :
    (s : Str) (size : ℕ) (chars : List Str) (cursor : ℕ) (first : Option ℕ) (ranges : List Range)
    → All (λ char. char ≢ []) chars
    → cursor ≤ length s
    → Scattered chars (drop cursor s)
    → is_some (scan_chars s size chars cursor first ranges) ≡ true
unfolding scan_chars
Scattered-scan_chars s size [] cursor first ranges h le p = refl
Scattered-scan_chars s size (char ∷ chars) cursor first ranges (ne, h) le p =
    let (j, at, q) = index_of-Scattered char chars s cursor le p in
    let (in_range, after, lt) = index_of_lt char s cursor j ne at in
    rw (at, scan_chars, is_some)
      (Scattered-scan_chars s size chars (suc j) (first_or first j) (push_range ranges j) h
        (omega arith) q)
