-- ===== src/Files/Paths/Valid.antt =====
-- files/paths.ts: `assertValidPath` beside a description of valid paths by their segments.
use collab_ide.Base.{
  ℕ, ◌≤◌, ◌≡◌, refl, ◌≢◌, ◌↔◌, inl, inr, true, false, List, [], ◌∷◌, Str, ===_iff, starts_with,
  ends_with_char, includes_char, trim, split, cons_head, any, length, ◌==◌, All, ok, arith,
  Bool-cases,
}
use collab_ide.Files.Paths.{
  Unknown, string, other, slash, backslash, is_control, dot, dot_dot, check_segment, check_segments,
  assert_valid_string, assert_valid_path,
}

pub record IsSegment (segment : Str) : Type 0 where
  pub nonempty : segment ≢ []
  pub not_dot : segment ≢ dot
  pub not_dot_dot : segment ≢ dot_dot
  pub short : length segment ≤ 255
  pub trimmed : trim segment ≡ segment

-- At most 1024 code units, in at most 32 segments, each of them a plain name.
pub record IsValidPath (path : Str) : Type 0 where
  pub short : length path ≤ 1024
  pub trimmed : trim path ≡ path
  pub printable : any is_control path ≡ false
  pub forward : includes_char path backslash ≡ false
  pub shallow : length (split slash path) ≤ 32
  pub segments : All IsSegment (split slash path)

check_segment_sound : (s : Str) → check_segment s ≡ ok tt → IsSegment s
unfolding check_segment
check_segment_sound s e = record {
  nonempty = λ h. ground arith;
  not_dot = λ h. ground (arith, ===_iff s dot);
  not_dot_dot = λ h. ground (arith, ===_iff s dot_dot);
  short = ground arith;
  trimmed = ground (arith, ===_iff s (trim s));
}

check_segment_complete : (s : Str) → IsSegment s → check_segment s ≡ ok tt
unfolding check_segment
check_segment_complete [] h = absurd (h.nonempty refl)
check_segment_complete (c ∷ s) h = ground (
  arith,
  ===_iff (c ∷ s) dot,
  ===_iff (c ∷ s) dot_dot,
  ===_iff (c ∷ s) (trim (c ∷ s)),
  h.not_dot,
  h.not_dot_dot,
  h.trimmed,
  h.short,
)

check_segments_iff : (ss : List Str) → (check_segments ss ≡ ok tt) ↔ All IsSegment ss
unfolding check_segments
check_segments_iff [] = (λ _. tt, λ _. refl)
check_segments_iff (s ∷ ss) = (
  λ e. (check_segment_sound s (ground arith), (check_segments_iff ss).0 (ground arith)),
  λ h. rw (check_segment_complete s h.0) ((check_segments_iff ss).1 h.1),
)

-- The separate tests for a slash at either end are implied by the rule on empty segments.
starts_with-slash : (s : Str) → All IsSegment (split slash s) → starts_with s (slash ∷ []) ≡ false
unfolding starts_with split
starts_with-slash [] h = refl
starts_with-slash (c ∷ s) h = elim (Bool-cases (c == slash)) [
  | inl e ↦ absurd ((rw e at h).0.nonempty refl)
  | inr e ↦ rw e
]

abbrev LastIsEmpty : List Str → Type 0
LastIsEmpty [] = ⊥
LastIsEmpty (p ∷ []) = p ≡ []
LastIsEmpty (p ∷ q ∷ ps) = LastIsEmpty (q ∷ ps)

abbrev TailEndsEmpty : List Str → Type 0
TailEndsEmpty [] = ⊥
TailEndsEmpty (p ∷ ps) = LastIsEmpty ps

LastIsEmpty-cons : (p : Str) (ps : List Str) → LastIsEmpty ps → LastIsEmpty (p ∷ ps)
LastIsEmpty-cons p [] h = absurd h
LastIsEmpty-cons p (q ∷ ps) h = h

LastIsEmpty-tail : (ps : List Str) → TailEndsEmpty ps → LastIsEmpty ps
LastIsEmpty-tail [] h = absurd h
LastIsEmpty-tail (p ∷ ps) h = LastIsEmpty-cons p ps h

TailEndsEmpty-cons_head :
    (c : ℕ) (ps : List Str) → TailEndsEmpty ps → TailEndsEmpty (cons_head c ps)
TailEndsEmpty-cons_head c [] h = absurd h
TailEndsEmpty-cons_head c (p ∷ ps) h = h

split-ends : (s : Str) → ends_with_char s slash ≡ true → TailEndsEmpty (split slash s)
unfolding ends_with_char split
split-ends [] h = cc
split-ends (c ∷ []) h = rw h refl
split-ends (c ∷ d ∷ s) h =
    let rest = split-ends (d ∷ s) h in
    elim (Bool-cases (c == slash)) [
      | inl e ↦ rw e (LastIsEmpty-tail (split slash (d ∷ s)) rest)
      | inr e ↦ rw e (TailEndsEmpty-cons_head c (split slash (d ∷ s)) rest)
    ]

not_LastIsEmpty : (ps : List Str) → All IsSegment ps → ¬ LastIsEmpty ps
not_LastIsEmpty [] h e = e
not_LastIsEmpty (p ∷ []) h e = h.0.nonempty e
not_LastIsEmpty (p ∷ q ∷ ps) h e = not_LastIsEmpty (q ∷ ps) h.1 e

ends_with-slash : (s : Str) → All IsSegment (split slash s) → ends_with_char s slash ≡ false
ends_with-slash s h = elim (Bool-cases (ends_with_char s slash)) [
  | inl e ↦
      absurd (not_LastIsEmpty (split slash s) h (LastIsEmpty-tail (split slash s) (split-ends s e)))
  | inr e ↦ e
]

assert_valid_string_sound : (s t : Str) → assert_valid_string s ≡ ok t → (t ≡ s) × IsValidPath s
unfolding assert_valid_string
assert_valid_string_sound s t e = (
  ground arith,
  record {
    short = ground arith;
    trimmed = ground (arith, ===_iff s (trim s));
    printable = ground arith;
    forward = ground arith;
    shallow = ground arith;
    segments = (check_segments_iff (split slash s)).0 (ground arith);
  },
)

assert_valid_string_complete : (s : Str) → IsValidPath s → assert_valid_string s ≡ ok s
unfolding assert_valid_string split
assert_valid_string_complete [] v = absurd (v.segments.0.nonempty refl)
assert_valid_string_complete (c ∷ r) v =
    let s = c ∷ r in
    ground (
      arith,
      v.short,
      v.printable,
      v.forward,
      v.shallow,
      ===_iff s (trim s),
      v.trimmed,
      starts_with-slash s v.segments,
      ends_with-slash s v.segments,
      (check_segments_iff (split slash s)).1 v.segments,
    )

-- `assertValidPath` returns a path exactly when it is the argument itself, unchanged, and valid.
pub assert_valid_path_iff :
    (input : Unknown) (path : Str)
    → (assert_valid_path input ≡ ok path) ↔ ((input ≡ string path) × IsValidPath path)
unfolding assert_valid_path
assert_valid_path_iff other path = ground arith
assert_valid_path_iff (string s) path = (
  λ e. let (same, valid) = assert_valid_string_sound s path e in (cc same, rw same valid),
  λ h. let same : s ≡ path = cc h.0 in rw same (assert_valid_string_complete path h.1),
)
