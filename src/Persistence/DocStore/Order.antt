-- ===== src/Persistence/DocStore/Order.antt =====
-- Rows in the order of their ids: the tail of a log splits at any boundary.
use collab_ide.Base.{
  ℕ, ◌≤◌, ◌<◌, ◌≡◌, refl, Bool, true, false, some, List, [], ◌∷◌, ◌++◌, keep, All, ltb, leb,
  Bool-cases, inl, inr, arith,
}
use collab_ide.Persistence.DocStore.{UpdateRow, insert_by_id, order_by_id, last_id}

module _ (P : UpdateRow → Type 0) where
  All-insert_by_id :
      (r : UpdateRow) (rows : List UpdateRow) → P r → All P rows → All P (insert_by_id r rows)
  unfolding insert_by_id
  All-insert_by_id r [] h k = (h, tt)
  All-insert_by_id r (s ∷ rows) h (k, ks) = elim (Bool-cases (leb r.id s.id)) [
    | inl e ↦ rw e (h, (k, ks))
    | inr e ↦ rw e (k, All-insert_by_id r rows h ks)
  ]

  pub All-order_by_id : (rows : List UpdateRow) → All P rows → All P (order_by_id rows)
  unfolding order_by_id
  All-order_by_id [] h = tt
  All-order_by_id (r ∷ rows) (h, hs) =
      All-insert_by_id r (order_by_id rows) h (All-order_by_id rows hs)

abbrev pub Ordered : List UpdateRow → Type 0
Ordered [] = Unit
Ordered (r ∷ rows) = All (λ s. r.id ≤ s.id) rows × Ordered rows

All-le_mono :
    (m n : ℕ) (rows : List UpdateRow) → m ≤ n → All (λ s. n ≤ s.id) rows → All (λ s. m ≤ s.id) rows
All-le_mono m n [] h k = tt
All-le_mono m n (r ∷ rows) h (k, ks) = (omega arith, All-le_mono m n rows h ks)

Ordered-insert_by_id :
    (r : UpdateRow) (rows : List UpdateRow) → Ordered rows → Ordered (insert_by_id r rows)
unfolding insert_by_id
Ordered-insert_by_id r [] h = (tt, tt)
Ordered-insert_by_id r (s ∷ rows) (h, hs) = elim (Bool-cases (leb r.id s.id)) [
  | inl e ↦ rw e ((ground arith, All-le_mono r.id s.id rows (ground arith) h), (h, hs))
  | inr e ↦
      rw e (
        All-insert_by_id (λ x. s.id ≤ x.id) r rows (ground arith) h,
        Ordered-insert_by_id r rows hs,
      )
]

pub Ordered-order_by_id : (rows : List UpdateRow) → Ordered (order_by_id rows)
unfolding order_by_id
Ordered-order_by_id [] = tt
Ordered-order_by_id (r ∷ rows) =
    Ordered-insert_by_id r (order_by_id rows) (Ordered-order_by_id rows)

-- The last id is the greatest.
last_id-max :
    (rows : List UpdateRow) (n : ℕ)
    → Ordered rows
    → last_id rows ≡ some n
    → All (λ r. r.id ≤ n) rows
unfolding last_id
last_id-max [] n h e = tt
last_id-max (r ∷ []) n h e = (ground arith, tt)
last_id-max (r ∷ s ∷ rows) n (h, hs) e =
    let rest = last_id-max (s ∷ rows) n hs e in (omega (arith, h.0, rest.0), rest)

insert-low :
    (b : ℕ) (r : UpdateRow) (lo hi : List UpdateRow)
    → r.id ≤ b
    → All (λ s. b < s.id) hi
    → insert_by_id r (lo ++ hi) ≡ insert_by_id r lo ++ hi
unfolding insert_by_id
insert-low b r [] [] h k = refl
insert-low b r [] (s ∷ hi) h k = ground arith
insert-low b r (s ∷ lo) hi h k = ground (arith, insert-low b r lo hi h k)

insert-high :
    (b : ℕ) (r : UpdateRow) (lo hi : List UpdateRow)
    → b < r.id
    → All (λ s. s.id ≤ b) lo
    → insert_by_id r (lo ++ hi) ≡ lo ++ insert_by_id r hi
unfolding insert_by_id
insert-high b r [] hi h k = refl
insert-high b r (s ∷ lo) hi h (k, ks) = ground (arith, insert-high b r lo hi h ks)

All-keep_test :
    (p : UpdateRow → Bool) (P : UpdateRow → Type 0)
    → ((r : UpdateRow) → p r ≡ true → P r)
    → (rows : List UpdateRow) → All P (keep p rows)
All-keep_test p P h [] = tt
All-keep_test p P h (r ∷ rows) = elim (Bool-cases (p r)) [
  | inl e ↦ rw e (h r e, All-keep_test p P h rows)
  | inr e ↦ rw e (All-keep_test p P h rows)
]

-- Rows up to a boundary come first, and the rest follow, each part in its own order.
pub order_by_id-split :
    (b : ℕ) (rows : List UpdateRow)
    → order_by_id rows
      ≡ order_by_id (keep (λ r. leb r.id b) rows) ++ order_by_id (keep (λ r. ltb b r.id) rows)
unfolding order_by_id
order_by_id-split b [] = refl
order_by_id-split b (r ∷ rows) =
    let lo = order_by_id (keep (λ s. leb s.id b) rows) in
    let hi = order_by_id (keep (λ s. ltb b s.id) rows) in
    let low =
      All-order_by_id _ _
        (All-keep_test (λ s. leb s.id b) (λ s. s.id ≤ b) (λ s e. ground arith) rows) in
    let high =
      All-order_by_id _ _
        (All-keep_test (λ s. ltb b s.id) (λ s. b < s.id) (λ s e. ground arith) rows) in
    elim (Bool-cases (leb r.id b)) [
      | inl e ↦
          let e' : ltb b r.id ≡ false = ground arith in
          rw (e, e', order_by_id-split b rows) (insert-low b r lo hi (ground arith) high)
      | inr e ↦
          let e' : ltb b r.id ≡ true = ground arith in
          rw (e, e', order_by_id-split b rows) (insert-high b r lo hi (ground arith) low)
    ]

module _ (P : UpdateRow → Type 0) where
  All-insert :
      (r : UpdateRow) (rows : List UpdateRow) → All P (insert_by_id r rows) → P r × All P rows
  unfolding insert_by_id
  All-insert r [] h = (h.0, tt)
  All-insert r (s ∷ rows) h = elim (Bool-cases (leb r.id s.id)) [
    | inl e ↦ rw e at h
    | inr e ↦
        let (here, later) = (rw e at h) in
        let (first, rest) = All-insert r rows later in (first, (here, rest))
  ]

  All-order : (rows : List UpdateRow) → All P (order_by_id rows) → All P rows
  unfolding order_by_id
  All-order [] h = tt
  All-order (r ∷ rows) h =
      let (here, later) = All-insert r (order_by_id rows) h in (here, All-order rows later)

  All-keep :
      (p : UpdateRow → Bool) (rows : List UpdateRow)
      → All P (keep p rows)
      → All (λ r. p r ≡ true → P r) rows
  All-keep p [] h = tt
  All-keep p (r ∷ rows) h = elim (Bool-cases (p r)) [
    | inl e ↦ let (here, later) = (rw e at h) in ((λ _. here), All-keep p rows later)
    | inr e ↦ ((λ e'. cc), All-keep p rows (rw e at h))
  ]

-- Every row of a filtered log is at most the last id of the ordered result.
pub last_id-keep :
    (p : UpdateRow → Bool) (rows : List UpdateRow) (n : ℕ)
    → last_id (order_by_id (keep p rows)) ≡ some n
    → All (λ r. p r ≡ true → r.id ≤ n) rows
last_id-keep p rows n e =
    All-keep (λ r. r.id ≤ n) p rows
      (All-order (λ r. r.id ≤ n) (keep p rows)
        (last_id-max (order_by_id (keep p rows)) n (Ordered-order_by_id (keep p rows)) e))
