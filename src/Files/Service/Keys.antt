-- ===== src/Files/Service/Keys.antt =====
-- Unique keys of the file table, and the ids of chosen rows.
use collab_ide.Base.{
  ◌≡◌, refl, sym, subst, ◌∙◌, inl, inr, Bool, true, false, some, List, [], ◌∷◌, map, any, keep,
  find, All, Str, ◌===◌, ===_refl, ===_comm, Bool-cases, arith,
}
use collab_ide.Database.Distinct.{Distinct}
use collab_ide.Files.Rows.{FileRow}

-- The primary key.
abbrev pub same_row : FileRow → FileRow → Bool
same_row r s = r.id === s.id

All-any-false :
    {A : Type 0} (q : A → Bool) (xs : List A) → any q xs ≡ false → All (λ x. q x ≡ false) xs
All-any-false q [] h = tt
All-any-false q (x ∷ xs) h = (ground arith, All-any-false q xs (ground arith))

pub find-none :
    (q c : FileRow → Bool) (xs : List FileRow) (x : FileRow)
    → find q xs ≡ some x
    → any c xs ≡ false
    → c x ≡ false
find-none q c [] x e h = cc
find-none q c (y ∷ xs) x e h = elim (Bool-cases (q y)) [
  | inl hit ↦ let same : y ≡ x = ground arith in rw (← same) (ground arith)
  | inr miss ↦ find-none q c xs x (ground arith) (ground arith)
]

both_false :
    {A : Type 0} (q p : A → Bool) (xs : List A)
    → All (λ x. q x ≡ false) xs
    → All (λ x. p x ≡ false) xs
    → All (λ x. q x ≡ p x) xs
both_false q p [] h k = tt
both_false q p (x ∷ xs) (h, hs) (k, ks) = (h ∙ sym k, both_false q p xs hs ks)

-- Two unique keys pick the same row.
pub twin :
    (a b : FileRow → FileRow → Bool) (q : FileRow → Bool)
    → ((r s : FileRow) → a r s ≡ a s r)
    → ((r s : FileRow) → b r s ≡ b s r)
    → ((r : FileRow) → a r r ≡ true)
    → ((r : FileRow) → b r r ≡ true)
    → (rows : List FileRow) (f : FileRow) → Distinct a rows
    → Distinct b rows
    → find q rows ≡ some f
    → All (λ r. a f r ≡ b f r) rows
twin a b q sa sb ra rb [] f da db e = tt
twin a b q sa sb ra rb (x ∷ xs) f (da, das) (db, dbs) e = elim (Bool-cases (q x)) [
  | inl hit ↦
      let same : x ≡ f = ground arith in
      subst (λ g. All (λ r. a g r ≡ b g r) (x ∷ xs)) same
        (
          ra x ∙ sym (rb x),
          both_false (a x) (b x) xs (All-any-false (a x) xs da) (All-any-false (b x) xs db),
        )
  | inr miss ↦
      let there : find q xs ≡ some f = ground arith in
      (
        sa f x ∙ find-none q (a x) xs f there da ∙ sym (sb f x ∙ find-none q (b x) xs f there db),
        twin a b q sa sb ra rb xs f das dbs there,
      )
]

-- An id is among those of the chosen rows exactly when its row is chosen.
abbrev pub ids_of : (FileRow → Bool) → List FileRow → List Str
ids_of q rows = map (λ r. r.id) (keep q rows)

ids_of-none :
    (i : Str) (q : FileRow → Bool) (rows : List FileRow)
    → any (λ r. i === r.id) rows ≡ false
    → any (λ j. i === j) (ids_of q rows) ≡ false
ids_of-none i q [] h = refl
ids_of-none i q (r ∷ rows) h = ground (arith, ids_of-none i q rows)

ids_of-others :
    (q : FileRow → Bool) (x : FileRow) (xs ys : List FileRow)
    → any (same_row x) ys ≡ false
    → All (λ r. any (λ j. r.id === j) (ids_of q xs) ≡ q r) ys
    → All (λ r. any (λ j. r.id === j) (ids_of q (x ∷ xs)) ≡ q r) ys
ids_of-others q x xs [] new h = tt
ids_of-others q x xs (r ∷ ys) new (h, hs) =
    (ground (arith, ===_comm r.id x.id), ids_of-others q x xs ys (ground arith) hs)

pub ids_of-All :
    (q : FileRow → Bool) (rows : List FileRow)
    → Distinct same_row rows
    → All (λ r. any (λ j. r.id === j) (ids_of q rows) ≡ q r) rows
ids_of-All q [] d = tt
ids_of-All q (x ∷ xs) (new, ds) = (
  ground (arith, ids_of-none x.id q xs new, ===_refl x.id),
  ids_of-others q x xs xs new (ids_of-All q xs ds),
)
