-- ===== src/Search/Ranking.antt =====
-- Name search: `searchNames` of apps/web/src/features/search/useProjectSearch.ts.
use collab_ide.Base.{
  ◌≡◌, inl, inr, refl, arith, Bool, true, false, List, [], ◌∷◌, Option, none, some, Str, length,
  if◌then◌else◌, leb, ltb, ◌&&◌, ◌||◌, not, ℤ, pos, negsuc, Bool-cases, is_some,
}
use collab_ide.Search.Names.{Range, NameMatch, match_path}
use collab_ide.Search.Tree.{FlatNode}

pub record FileHit : Type 0 where
  pub node : FlatNode
  pub score : ℤ
  pub ranges : List Range

abbrev pub less : ℤ → ℤ → Bool
less (pos m) (pos n) = ltb m n
less (pos m) (negsuc n) = false
less (negsuc m) (pos n) = true
less (negsuc m) (negsuc n) = ltb n m

-- `a.score - b.score || a.node.path.length - b.node.path.length` is not above 0.
unfoldable pub in_order : FileHit → FileHit → Bool
in_order a b =
    less a.score b.score
    || (not (less b.score a.score) && leb (length a.node.path) (length b.node.path))

-- `hits.sort(...)`: the language's sort is stable, so equal hits keep their order.
unfoldable pub insert_hit : FileHit → List FileHit → List FileHit
insert_hit h [] = h ∷ []
insert_hit h (k ∷ ks) = let rest = insert_hit h ks in if in_order h k then h ∷ k ∷ ks else k ∷ rest

unfoldable pub sort_hits : List FileHit → List FileHit
sort_hits [] = []
sort_hits (h ∷ hs) = insert_hit h (sort_hits hs)

module _ (to_lower_case : Str → Str) (query : Str) where
  abbrev pub push_hit : FlatNode → Option NameMatch → List FileHit → List FileHit
  push_hit n none hits = hits
  push_hit n (some m) hits = record { node = n; score = m.score; ranges = m.ranges } ∷ hits

  unfoldable pub hits_of : List FlatNode → List FileHit
  hits_of [] = []
  hits_of (n ∷ ns) = push_hit n (match_path to_lower_case n.path query) (hits_of ns)

  unfoldable pub search_names : List FlatNode → List FileHit
  search_names nodes = sort_hits (hits_of nodes)

-- Each hit is in order with all that follow it.
abbrev pub Ranked : List FileHit → Type 0
Ranked [] = Unit
Ranked (h ∷ []) = Unit
Ranked (h ∷ k ∷ ks) = (in_order h k ≡ true) × Ranked (k ∷ ks)

in_order_total : (a b : FileHit) → in_order a b ≡ false → in_order b a ≡ true
unfolding in_order
in_order_total a b h = go a.score b.score h
  where
    go :
        (x y : ℤ)
        → (less x y || (not (less y x) && leb (length a.node.path) (length b.node.path))) ≡ false
        → (less y x || (not (less x y) && leb (length b.node.path) (length a.node.path))) ≡ true
    go (pos m) (pos n) h = ground arith
    go (pos m) (negsuc n) h = refl
    go (negsuc m) (pos n) h = cc
    go (negsuc m) (negsuc n) h = ground arith

insert_hit-Ranked : (h : FileHit) (ks : List FileHit) → Ranked ks → Ranked (insert_hit h ks)
unfolding insert_hit
insert_hit-Ranked h [] r = tt
insert_hit-Ranked h (k ∷ []) r = elim (Bool-cases (in_order h k)) [
  | inl e ↦ simp e (refl, tt)
  | inr e ↦ simp e (in_order_total h k e, tt)
]
insert_hit-Ranked h (k ∷ l ∷ ks) (e, r) = elim (Bool-cases (in_order h k)) [
  | inl first ↦ simp first (refl, (e, r))
  | inr later ↦
      let rest = insert_hit-Ranked h (l ∷ ks) r in
      elim (Bool-cases (in_order h l)) [
        | inl between ↦ simp (later, between) (in_order_total h k later, (refl, r))
        | inr after ↦ simp (later, after) (e, simp after at rest)
      ]
]

pub sort_hits-Ranked : (hs : List FileHit) → Ranked (sort_hits hs)
unfolding sort_hits
sort_hits-Ranked [] = tt
sort_hits-Ranked (h ∷ hs) = insert_hit-Ranked h (sort_hits hs) (sort_hits-Ranked hs)

module _ (to_lower_case : Str → Str) (query : Str) where
  abbrev pub is_match : FlatNode → Bool
  is_match n = is_some (match_path to_lower_case n.path query)
