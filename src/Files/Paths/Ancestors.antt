-- ===== src/Files/Paths/Ancestors.antt =====
-- files/paths.ts: `ancestorPaths`, `parentPath`, `baseName` and `isDescendantOf` beside each other.
use collab_ide.Base.{
  ℕ, zero, suc, ◌≡◌, refl, sym, ap, ◌≢◌, inl, inr, false, ◌&&◌, Option, none, some, List, [], ◌∷◌,
  ◌++◌, map, Str, ◌===◌, includes_char, starts_with, split, split-ne-nil, cons_head, join,
  last_index_of, any, take, drop, length, ◌==◌, ==_iff, if◌then◌else◌, Bool-cases, Option-cases,
  arith,
}
use collab_ide.Files.Paths.{
  slash, base_name, parent_path, pop, ancestors_from, ancestor_paths, is_descendant_of,
}

-- The texts before each slash, by one pass over the path.
before_slashes : Str → List Str
before_slashes [] = []
before_slashes (c ∷ s) =
    let rest = map (◌∷◌ c) (before_slashes s) in if c == slash then [] ∷ rest else rest

join-take_cons :
    (c i : ℕ) (p : Str) (ps : List Str)
    → join slash (take (suc i) ((c ∷ p) ∷ ps)) ≡ c ∷ join slash (take (suc i) (p ∷ ps))
unfolding join
join-take_cons c zero p ps = refl
join-take_cons c (suc i) p [] = refl
join-take_cons c (suc i) p (q ∷ ps) = refl

ancestors_from-cons :
    (c i n : ℕ) (p : Str) (ps : List Str)
    → ancestors_from ((c ∷ p) ∷ ps) i n ≡ map (◌∷◌ c) (ancestors_from (p ∷ ps) i n)
unfolding ancestors_from
ancestors_from-cons c i zero p ps = refl
ancestors_from-cons c i (suc n) p ps =
    rw (join-take_cons c i p ps, ancestors_from-cons c (suc i) n p ps)

ancestors_from-nil :
    (i n : ℕ) (p : Str) (ps : List Str)
    → ancestors_from ([] ∷ p ∷ ps) (suc i) n ≡ map (◌∷◌ slash) (ancestors_from (p ∷ ps) i n)
unfolding ancestors_from join
ancestors_from-nil i zero p ps = refl
ancestors_from-nil i (suc n) p ps =
    ap (◌∷◌ (slash ∷ join slash (take (suc i) (p ∷ ps)))) (ancestors_from-nil (suc i) n p ps)

abbrev climb : List Str → List Str
climb segments = ancestors_from (pop segments) 0 (length (pop segments))

climb-cons_head : (c : ℕ) (ps : List Str) → climb (cons_head c ps) ≡ map (◌∷◌ c) (climb ps)
unfolding pop ancestors_from
climb-cons_head c [] = refl
climb-cons_head c (p ∷ []) = refl
climb-cons_head c (p ∷ q ∷ ps) =
    ancestors_from-cons c 0 (suc (length (pop (q ∷ ps)))) p (pop (q ∷ ps))

climb-nil : (ps : List Str) → ps ≢ [] → climb ([] ∷ ps) ≡ [] ∷ map (◌∷◌ slash) (climb ps)
unfolding pop ancestors_from join
climb-nil [] h = absurd (h refl)
climb-nil (p ∷ []) h = refl
climb-nil (p ∷ q ∷ ps) h =
    ap (◌∷◌ []) (ancestors_from-nil 0 (suc (length (pop (q ∷ ps)))) p (pop (q ∷ ps)))

ancestor_paths-before_slashes : (path : Str) → climb (split slash path) ≡ before_slashes path
unfolding before_slashes split
ancestor_paths-before_slashes [] = unfold pop ancestors_from in refl
ancestor_paths-before_slashes (c ∷ s) = elim (Bool-cases (c == slash)) [
  | inl e ↦
      rw (e, climb-nil (split slash s) (split-ne-nil slash s), ancestor_paths-before_slashes s)
        (ap (λ z. [] ∷ map (◌∷◌ z) (before_slashes s)) (sym ((==_iff c slash).0 e)))
  | inr e ↦ rw (e, climb-cons_head c (split slash s), ancestor_paths-before_slashes s)
]

any-map_cons :
    (c : ℕ) (x : Str) (d : ℕ) (ps : List Str)
    → any (λ a. a === (d ∷ x)) (map (◌∷◌ c) ps) ≡ ((c == d) && any (λ a. a === x) ps)
unfolding ◌===◌
any-map_cons c x d [] = ground arith
any-map_cons c x d (a ∷ ps) = ground (arith, any-map_cons c x d ps)

any-map_nil : (c : ℕ) (ps : List Str) → any (λ a. a === []) (map (◌∷◌ c) ps) ≡ false
unfolding ◌===◌
any-map_nil c [] = refl
any-map_nil c (a ∷ ps) = any-map_nil c ps

before_slashes-starts_with :
    (path x : Str) → any (λ a. a === x) (before_slashes path) ≡ starts_with path (x ++ slash ∷ [])
unfolding before_slashes starts_with ◌===◌
before_slashes-starts_with [] [] = refl
before_slashes-starts_with [] (d ∷ x) = refl
before_slashes-starts_with (c ∷ s) [] = ground (arith, any-map_nil c (before_slashes s))
before_slashes-starts_with (c ∷ s) (d ∷ x) =
    ground (arith, any-map_cons c x d (before_slashes s), before_slashes-starts_with s x)

-- The ancestors of a path are exactly the directories that it descends from, for every text.
pub ancestor_paths-is_descendant_of :
    (path x : Str) → any (λ a. a === x) (ancestor_paths path) ≡ is_descendant_of path x
unfolding ancestor_paths is_descendant_of
ancestor_paths-is_descendant_of path x =
    rw (ancestor_paths-before_slashes path) (before_slashes-starts_with path x)

last_index_of-none : (s : Str) (c : ℕ) → last_index_of s c ≡ none → includes_char s c ≡ false
unfolding last_index_of
last_index_of-none [] c e = refl
last_index_of-none (d ∷ s) c e = ground (arith, last_index_of-none s c)

last_index_of-some :
    (s : Str) (c i : ℕ)
    → last_index_of s c ≡ some i
    → (take i s ++ c ∷ drop (suc i) s ≡ s) × (includes_char (drop (suc i) s) c ≡ false)
unfolding last_index_of
last_index_of-some [] c i e = cc
last_index_of-some (d ∷ s) c i e = elim (Option-cases (last_index_of s c)) [
  | inl later ↦
      let first : 0 ≡ i = ground arith in
      let hit : d ≡ c = ground arith in
      rw (← first) (ap (λ z. z ∷ s) (sym hit), last_index_of-none s c later)
  | inr (j, later) ↦
      let same : suc j ≡ i = ground arith in
      let (whole, rest) = last_index_of-some s c j later in rw (← same) (ap (◌∷◌ d) whole, rest)
]

-- A base name below its parent directory, or by itself at the root.
abbrev pub rejoin : Option Str → Str → Str
rejoin none base = base
rejoin (some d) base = d ++ slash ∷ base

-- Every path is its parent directory, a slash and its base name, or its base name alone where it has no parent; and a base name holds no slash.
pub parent_path-base_name :
    (path : Str)
    → (rejoin (parent_path path) (base_name path) ≡ path)
      × (any (λ c. c == slash) (base_name path) ≡ false)
unfolding parent_path base_name
parent_path-base_name path = elim (Option-cases (last_index_of path slash)) [
  | inl e ↦ rw e (refl, last_index_of-none path slash e)
  | inr (i, e) ↦ rw e (last_index_of-some path slash i e)
]
