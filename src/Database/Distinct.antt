-- ===== src/Database/Distinct.antt =====
-- Rows under a unique constraint: what an update or a delete of the one row with a given key does
-- to the number of rows that satisfy a test.
use collab_ide.Base.{
  ℕ, ◌+◌, ◌≡◌, refl, Bool, true, false, not, some, List, [], ◌∷◌, ◌++◌, map, any, any-append, keep,
  find, count, arith, Bool-cases, inl, inr,
}
use collab_ide.Database.{Table, update_row}

module _ {A : Type 0} (conflict : A → A → Bool) where
  abbrev pub Distinct : List A → Type 0
  Distinct [] = Unit
  Distinct (r ∷ rs) = (any (conflict r) rs ≡ false) × Distinct rs

module _ {A : Type 0} (conflict : A → A → Bool) where
  pub Distinct-append :
      ((r s : A) → conflict r s ≡ conflict s r)
      → (rs : List A) (r : A) → Distinct conflict rs
      → any (conflict r) rs ≡ false
      → Distinct conflict (rs ++ r ∷ [])
  Distinct-append symm [] r h k = (refl, tt)
  Distinct-append symm (x ∷ rs) r h k = (
    ground (arith, any-append (conflict x) rs (r ∷ []), symm x r),
    Distinct-append symm rs r h.1 (ground arith),
  )

  any-keep : (p q : A → Bool) (rs : List A) → any p rs ≡ false → any p (keep q rs) ≡ false
  any-keep p q [] h = refl
  any-keep p q (x ∷ rs) h = ground (arith, any-keep p q rs)

  pub Distinct-keep :
      (q : A → Bool) (rs : List A) → Distinct conflict rs → Distinct conflict (keep q rs)
  Distinct-keep q [] h = tt
  Distinct-keep q (x ∷ rs) h = elim (Bool-cases (q x)) [
    | inl e ↦ rw e (any-keep (conflict x) q rs h.0, Distinct-keep q rs h.1)
    | inr e ↦ rw e (Distinct-keep q rs h.1)
  ]

  -- An update that keeps the key.
  any-map :
      (f : A → A)
      → ((r s : A) → conflict (f r) (f s) ≡ conflict r s)
      → (x : A) (rs : List A) → any (conflict (f x)) (map f rs) ≡ any (conflict x) rs
  any-map f same x [] = refl
  any-map f same x (y ∷ rs) = ground (arith, any-map f same x rs, same x y)

  pub Distinct-map :
      (f : A → A)
      → ((r s : A) → conflict (f r) (f s) ≡ conflict r s)
      → (rs : List A) → Distinct conflict rs
      → Distinct conflict (map f rs)
  Distinct-map f same [] h = tt
  Distinct-map f same (x ∷ rs) h =
      (ground (arith, any-map f same x rs, h.0), Distinct-map f same rs h.1)

abbrev pub one_if : Bool → ℕ
one_if true = 1
one_if false = 0

-- `p` picks the rows with one key, so at most one row.
module _ {A : Type 0} (conflict : A → A → Bool) (p : A → Bool)
    (key : (r s : A) → p r ≡ true → p s ≡ true → conflict r s ≡ true) where
  unpicked : (x : A) (rs : List A) → p x ≡ true → any (conflict x) rs ≡ false → any p rs ≡ false
  unpicked x [] hx h = refl
  unpicked x (y ∷ rs) hx h = ground (arith, unpicked x rs hx, key x y hx)

  map-update_row_none : (f : A → A) (rs : List A) → any p rs ≡ false → map (update_row p f) rs ≡ rs
  map-update_row_none f [] h = refl
  map-update_row_none f (y ∷ rs) h = ground (arith, map-update_row_none f rs)

  keep-none : (rs : List A) → any p rs ≡ false → keep (λ r. not (p r)) rs ≡ rs
  keep-none [] h = refl
  keep-none (y ∷ rs) h = ground (arith, keep-none rs)

  pub count-update_row :
      (q : A → Bool) (f : A → A) (rs : List A) (m : A)
      → Distinct conflict rs
      → find p rs ≡ some m
      → count q (map (update_row p f) rs) + one_if (q m) ≡ count q rs + one_if (q (f m))
  count-update_row q f [] m d e = cc
  count-update_row q f (x ∷ rs) m d e = elim (Bool-cases (p x)) [
    | inl h ↦ ground (arith, map-update_row_none f rs, unpicked x rs h d.0)
    | inr h ↦ ground (arith, count-update_row q f rs m d.1)
  ]

  pub count-delete :
      (q : A → Bool) (rs : List A) (m : A)
      → Distinct conflict rs
      → find p rs ≡ some m
      → count q (keep (λ r. not (p r)) rs) + one_if (q m) ≡ count q rs
  count-delete q [] m d e = cc
  count-delete q (x ∷ rs) m d e = elim (Bool-cases (p x)) [
    | inl h ↦ ground (arith, keep-none rs, unpicked x rs h d.0)
    | inr h ↦ ground (arith, count-delete q rs m d.1)
  ]

-- A row that was created conflicted with none, and is the last one.
pub create_inv :
    {Row : Type 0} {conflict : Row → Row → Bool} (t : Table Row conflict) (r : Row) (d : t.Db)
    {d' : t.Db}
    → t.create r d ≡ some d'
    → (any (conflict r) (t.rows d) ≡ false) × (t.rows d' ≡ t.rows d ++ r ∷ [])
create_inv {conflict} t r d {d'} e = elim (Bool-cases (any (conflict r) (t.rows d))) [
  | inl h ↦ cc (t.create_conflict r d h)
  | inr h ↦
      let (d'', made, rows) = t.create_rows r d h in
      let same : d'' ≡ d' = cc in rw (← same) (h, rows)
]

-- A filter that keeps every row that satisfies `q` does not change their number.
pub count-keep_of :
    {A : Type 0} (q k : A → Bool)
    → ((r : A) → q r ≡ true → k r ≡ true)
    → (rs : List A) → count q (keep k rs) ≡ count q rs
count-keep_of q k h [] = refl
count-keep_of q k h (x ∷ rs) = ground (arith, count-keep_of q k h rs, h x)

-- Nothing that fails the filter is left.
pub any-keep-not :
    {A : Type 0} (p : A → Bool) (rs : List A) → any p (keep (λ r. not (p r)) rs) ≡ false
any-keep-not p [] = refl
any-keep-not p (x ∷ rs) = ground (arith, any-keep-not p rs)

pub any-keep-le :
    {A : Type 0} (p k : A → Bool) (rs : List A) → any p (keep k rs) ≡ true → any p rs ≡ true
any-keep-le p k [] h = h
any-keep-le p k (x ∷ rs) h = ground (arith, any-keep-le p k rs)

-- An update that does not change what `p` tests.
pub any-map-same :
    {A : Type 0} (p : A → Bool) (f : A → A)
    → ((r : A) → p (f r) ≡ p r)
    → (rs : List A) → any p (map f rs) ≡ any p rs
any-map-same p f h [] = refl
any-map-same p f h (x ∷ rs) = ground (arith, any-map-same p f h rs, h x)
