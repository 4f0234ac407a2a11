-- ===== src/Search/Names/Iff.antt =====
-- When `matchPath` finds a match.
use collab_ide.Base.{
  ℕ, ◌≡◌, ◌≢◌, ◌↔◌, inl, inr, refl, arith, true, [], ◌∷◌, none, Str, length, drop, starts_with,
  index_of, index_of_found, All, Bool-cases, Option-cases, is_some, code_points, is_high_surrogate,
  is_low_surrogate, ◌&&◌,
}
use collab_ide.Search.Names.{match_path, subsequence_ranges, scattered_match, name_start}
use collab_ide.Search.Names.Greedy.{
  Scattered, all_found, skip, stand, Scattered-drop, scan_chars-Scattered, Scattered-scan_chars,
}

pub code_points-NonEmpty : (s : Str) → All (λ char. char ≢ []) (code_points s)
unfolding code_points
code_points-NonEmpty [] = tt
code_points-NonEmpty (c ∷ []) = ((λ e. cc), tt)
code_points-NonEmpty (c ∷ d ∷ s) = elim (Bool-cases (is_high_surrogate c && is_low_surrogate d)) [
  | inl h ↦ rw h ((λ e. cc), code_points-NonEmpty s)
  | inr h ↦ rw h ((λ e. cc), code_points-NonEmpty (d ∷ s))
]

-- A contiguous hit is a scattered one.
starts_with-Scattered :
    (needle v : Str) → starts_with v needle ≡ true → Scattered (code_points needle) v
unfolding starts_with code_points
starts_with-Scattered [] v h = all_found
starts_with-Scattered (c ∷ needle) [] h = cc
starts_with-Scattered (c ∷ []) (x ∷ v) h = stand h all_found
starts_with-Scattered (c ∷ d ∷ needle) (x ∷ []) h = absurd (ground arith)
starts_with-Scattered (c ∷ d ∷ needle) (x ∷ y ∷ v) h =
    elim (Bool-cases (is_high_surrogate c && is_low_surrogate d)) [
      | inl pair ↦
          rw pair (stand (ground arith) (skip (starts_with-Scattered needle v (ground arith))))
      | inr single ↦
          rw single
            (stand (ground arith) (starts_with-Scattered (d ∷ needle) (y ∷ v) (ground arith)))
    ]

module _ (to_lower_case : Str → Str) where
  scattered_match-Scattered :
      (haystack needle : Str) (start : ℕ)
      → (is_some (scattered_match to_lower_case haystack needle start) ≡ true)
        ↔ Scattered (code_points needle) haystack
  unfolding subsequence_ranges
  scattered_match-Scattered haystack needle start =
      let chars = code_points-NonEmpty needle in
      let in_name =
        scan_chars-Scattered haystack (length needle) (code_points needle) start none [] chars in
      let anywhere =
        scan_chars-Scattered haystack (length needle) (code_points needle) 0 none [] chars in
      let complete =
        Scattered-scan_chars haystack (length needle) (code_points needle) 0 none [] chars
          (omega arith) in
      elim (Option-cases (subsequence_ranges haystack needle start)) [
        | inr (r, e) ↦ (
          λ found.
              Scattered-drop start (code_points needle) haystack (in_name (rw (e, is_some) refl)),
          λ p. rw (e, is_some) refl,
        )
        | inl e ↦ elim (Option-cases (subsequence_ranges haystack needle 0)) [
          | inr (r, e') ↦ (λ found. anywhere (rw (e', is_some) refl), λ p. rw (e, e', is_some) refl)
          | inl e' ↦ (λ found. cc (rw (e, e', is_some) at found), λ p. cc (rw e' at complete p))
        ]
      ]

  -- A query that is not empty matches a path just when the characters of the query, in lower case,
  -- stand in the path, in lower case, in this order.
  pub match_path_iff :
      (path query : Str)
      → query ≢ []
      → (is_some (match_path to_lower_case path query) ≡ true)
        ↔ Scattered (code_points (to_lower_case query)) (to_lower_case path)
  unfolding match_path
  match_path_iff path [] ne = absurd (ne refl)
  match_path_iff path (c ∷ query) ne =
      elim (Option-cases (index_of (to_lower_case (c ∷ query)) (to_lower_case path) 0)) [
        | inr (direct, e) ↦
            let (after, in_range, starts) =
              index_of_found (to_lower_case (c ∷ query)) (to_lower_case path) 0 direct (omega arith)
                e in
            (
              λ found.
                  Scattered-drop direct (code_points (to_lower_case (c ∷ query)))
                    (to_lower_case path)
                    (starts_with-Scattered (to_lower_case (c ∷ query))
                      (drop direct (to_lower_case path)) starts),
              λ p. rw (e, is_some) refl,
            )
        | inl e ↦
            let (sound, complete) =
              scattered_match-Scattered (to_lower_case path) (to_lower_case (c ∷ query))
                (name_start path) in
            (λ found. sound (rw (e, is_some) at found), λ p. rw (e, is_some) (complete p))
      ]
