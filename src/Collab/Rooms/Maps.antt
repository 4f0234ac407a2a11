-- ===== src/Collab/Rooms/Maps.antt =====
-- The maps of the rooms at one key, and the stages of a room.
use collab_ide.Base.{
  ℕ, ◌≡◌, ◌≢◌, ◌⊎◌, inl, inr, refl, arith, Bool, true, false, Option, none, some, Str, ◌===◌,
  ===_sound, ===_refl, ◌==◌, Bool-cases, List, [], ◌∷◌, any, not, ◌||◌, ◌&&◌, ◌++◌, sym, ap, ◌∙◌,
}
use collab_ide.Collab.Rooms.{
  Stage, unborn, loading, missing, failed, opened, flushing, destroyed, waiting, put, put_doc,
  is_current, delete_current, without_conn,
}

abbrev pub is_live : Stage → Bool
is_live loading = true
is_live missing = true
is_live failed = true
is_live opened = true
is_live (waiting w) = true
is_live unborn = false
is_live flushing = false
is_live destroyed = false

abbrev pub is_making : Stage → Bool
is_making loading = true
is_making (waiting w) = true
is_making missing = false
is_making failed = false
is_making opened = false
is_making unborn = false
is_making flushing = false
is_making destroyed = false

-- `await pending` has come back.
abbrev pub is_settled : Stage → Bool
is_settled missing = true
is_settled failed = true
is_settled opened = true
is_settled flushing = true
is_settled destroyed = true
is_settled loading = false
is_settled (waiting w) = false
is_settled unborn = false

abbrev pub holds : ℕ → List ℕ → Bool
holds conn cs = any (λ c. c == conn) cs

module _ {ℓ} {A : Type ℓ} where
  pub put_cases :
      (f : ℕ → A) (k : ℕ) (v : A) (j : ℕ)
      → ((j ≡ k) × (put f k v j ≡ v)) ⊎ ((j ≢ k) × (put f k v j ≡ f j))
  put_cases f k v j = elim (Bool-cases (j == k)) [
    | inl e ↦ inl (ground arith, rw e refl)
    | inr e ↦ inr ((λ same. ground arith), rw e refl)
  ]

  pub put_doc_cases :
      (f : Str → A) (k : Str) (v : A) (j : Str)
      → ((j ≡ k) × (put_doc f k v j ≡ v)) ⊎ ((j ≢ k) × (put_doc f k v j ≡ f j))
  put_doc_cases f k v j = elim (Bool-cases (j === k)) [
    | inl e ↦ inl (===_sound j k e, rw e refl)
    | inr e ↦ inr ((λ same. (let r = ===_refl j in absurd (cc))), rw e refl)
  ]

is_current_self : (p : ℕ) → is_current (some p) p ≡ true
is_current_self p = ground arith

pub is_current_sound : (q p : ℕ) → is_current (some q) p ≡ true → q ≡ p
is_current_sound q p e = ground arith

-- Deleting takes out the number that stands there, and nothing else.
pub delete_current_cases :
    (d : Str) (p : ℕ) (m : Str → Option ℕ) (j : Str) (q : ℕ)
    → delete_current d p m j ≡ some q
    → (m j ≡ some q) × (j ≡ d → q ≢ p)
delete_current_cases d p m j q e = elim (Bool-cases (is_current (m d) p)) [
  | inl current ↦ elim (put_doc_cases m d none j) [
    | inl (same, gone) ↦ absurd (cc (rw current at e))
    | inr (other, kept) ↦ (sym kept ∙ rw current at e, λ same. absurd (other same))
  ]
  | inr stale ↦ (
    rw stale at e,
    λ same number.
        (let here : m d ≡ some p = ap m (sym same) ∙ (rw stale at e) ∙ ap some number in
          let current = is_current_self p in absurd (cc (rw here at stale))),
  )
]

pub delete_current_other :
    (d : Str) (p : ℕ) (m : Str → Option ℕ) (j : Str) (q : ℕ)
    → m j ≡ some q
    → (j ≡ d → q ≢ p)
    → delete_current d p m j ≡ some q
delete_current_other d p m j q e other = elim (Bool-cases (is_current (m d) p)) [
  | inl current ↦ elim (put_doc_cases m d none j) [
    | inl (same, gone) ↦
        let here : m d ≡ some q = ap m (sym same) ∙ e in
        absurd (other same (is_current_sound q p (rw here at current)))
    | inr (distinct, kept) ↦ rw current (kept ∙ e)
  ]
  | inr stale ↦ rw stale e
]

pub holds-append : (c d : ℕ) (cs : List ℕ) → holds c (cs ++ d ∷ []) ≡ (holds c cs || (d == c))
holds-append c d [] = ground arith
holds-append c d (e ∷ cs) = ground (arith, holds-append c d cs)

pub holds-without_conn :
    (c conn : ℕ) (cs : List ℕ) → holds c (without_conn conn cs) ≡ (not (c == conn) && holds c cs)
holds-without_conn c conn [] = ground arith
holds-without_conn c conn (e ∷ cs) = ground (arith, holds-without_conn c conn cs)

pub live_settled :
    (st : Stage)
    → is_settled st ≡ true
    → st ≢ missing
    → st ≢ failed
    → is_live st ≡ true
    → st ≡ opened
live_settled opened h ne nf live = refl
live_settled missing h ne nf live = absurd (ne refl)
live_settled failed h ne nf live = absurd (nf refl)
live_settled loading h ne nf live = cc
live_settled (waiting w) h ne nf live = cc
live_settled unborn h ne nf live = cc
live_settled flushing h ne nf live = cc
live_settled destroyed h ne nf live = cc
