-- ===== src/Search/Names/Segments.antt =====
-- Ranges over a text, and what they mark of it.
use collab_ide.Base.{
  ℕ, zero, suc, ◌+◌, ◌-◌, ◌≤◌, ◌<◌, ◌≡◌, inl, inr, refl, ap, sym, arith, List, [], ◌∷◌, ◌++◌,
  append_assoc, append-nil, Str, take, drop, slice, Bool-cases, code_points, is_high_surrogate,
  is_low_surrogate, ◌&&◌, ◌==◌, drop_add,
}
use collab_ide.Search.Names.{Range, push_range}

-- The ranges are not empty, stand in order between the two bounds, and do not overlap.
abbrev pub Laid : ℕ → List Range → ℕ → Type 0
Laid lo [] hi = lo ≤ hi
Laid lo (r ∷ rs) hi = (lo ≤ r.start) × (r.start < r.end) × Laid r.end rs hi

-- What the ranges mark of the text.
abbrev pub highlighted : Str → List Range → Str
highlighted s [] = []
highlighted s (r ∷ rs) = slice s r.start r.end ++ highlighted s rs

abbrev pub concat : List Str → Str
concat [] = []
concat (s ∷ ss) = s ++ concat ss

pub concat-code_points : (s : Str) → concat (code_points s) ≡ s
unfolding code_points
concat-code_points [] = refl
concat-code_points (c ∷ []) = refl
concat-code_points (c ∷ d ∷ s) = elim (Bool-cases (is_high_surrogate c && is_low_surrogate d)) [
  | inl h ↦ rw (h, concat-code_points s)
  | inr h ↦ rw (h, concat-code_points (d ∷ s))
]

pub take_add : (m n : ℕ) (s : Str) → take m s ++ take n (drop m s) ≡ take (m + n) s
take_add zero n s = ap (λ k. take k s) (omega arith)
take_add (suc m) zero [] = let e : suc m + 0 ≡ suc m = omega arith in rw e refl
take_add (suc m) (suc n) [] = let e : suc m + suc n ≡ suc (m + suc n) = omega arith in rw e refl
take_add (suc m) n (c ∷ s) = let e : suc m + n ≡ suc (m + n) = omega arith in rw (e, take_add m n s)

pub slice_trans : (s : Str) (a b c : ℕ) → a ≤ b → b ≤ c → slice s a b ++ slice s b c ≡ slice s a c
slice_trans s a b c h k =
    let left : a + (b - a) ≡ b = omega arith in
    let whole : (b - a) + (c - b) ≡ c - a = omega arith in
    let joined = take_add (b - a) (c - b) (drop a s) in
    rw (drop_add a (b - a) s, left, whole) at joined

pub push_range-Laid :
    (lo hi found : ℕ) (rs : List Range)
    → Laid lo rs hi
    → hi ≤ found
    → Laid lo (push_range rs found) (suc found)
unfolding push_range
push_range-Laid lo hi found [] h le = (omega arith, omega arith, omega arith)
push_range-Laid lo hi found (last ∷ []) (a, b, c) le = ground arith
push_range-Laid lo hi found (r ∷ last ∷ rs) (a, b, c) le =
    (a, b, push_range-Laid r.end hi found (last ∷ rs) c le)

pub highlighted-push_range :
    (s : Str) (lo hi found : ℕ) (rs : List Range)
    → Laid lo rs hi
    → hi ≤ found
    → highlighted s (push_range rs found) ≡ highlighted s rs ++ slice s found (suc found)
unfolding push_range
highlighted-push_range s lo hi found [] h le = append-nil (slice s found (suc found))
highlighted-push_range s lo hi found (last ∷ []) (a, b, c) le =
    elim (Bool-cases (last.end == found)) [
      | inl h ↦
          let e : last.end ≡ found = ground arith in
          let joined = slice_trans s last.start last.end (suc found) (omega arith) (omega arith) in
          rw
            (
              h,
              append-nil (slice s last.start (suc found)),
              append-nil (slice s last.start last.end),
              ← e,
            )
            (sym (rw (← e) at joined))
      | inr h ↦
          rw (h, append-nil (slice s found (suc found)), append-nil (slice s last.start last.end))
    ]
highlighted-push_range s lo hi found (r ∷ last ∷ rs) (a, b, c) le =
    rw (highlighted-push_range s r.end hi found (last ∷ rs) c le) (
      sym (
        append_assoc (slice s r.start r.end) (highlighted s (last ∷ rs))
          (slice s found (suc found))))
