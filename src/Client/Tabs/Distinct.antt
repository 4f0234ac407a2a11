-- ===== src/Client/Tabs/Distinct.antt =====
-- What every operation keeps of the open tabs.
use collab_ide.Base.{
  ℕ, zero, suc, ◌≤◌, ◌≡◌, ◌∙◌, inl, inr, refl, ap, arith, true, false, not, ◌||◌, List, [], ◌∷◌,
  ◌++◌, map, Option, none, some, Str, ◌===◌, ===_comm, ===_sound, ===_refl, take, length,
  length-take-le, any, any-append, keep, if◌then◌else◌, Bool-cases,
}
use collab_ide.Client.Tabs.{
  OpenTab, OpenFiles, max_recent, has_id, tab_of, open_file, last_id, active_after, close_file,
  renamed, rename_tab, set_active, no_files,
}

pub data Op : Type 0 where
  opened : Str → Str → Op
  closed_file : Str → Op
  moved : Str → Str → Op
  chosen : Str → Op

-- A tab is chosen by a click on it.
abbrev pub perform : OpenFiles → Op → OpenFiles
perform s (opened id path) = open_file id path s
perform s (closed_file id) = close_file id s
perform s (moved id path) = rename_tab id path s
perform s (chosen id) = if any (has_id id) s.tabs then set_active (some id) s else s

abbrev pub perform_all : OpenFiles → List Op → OpenFiles
perform_all s [] = s
perform_all s (o ∷ os) = perform_all (perform s o) os

abbrev pub Distinct : List OpenTab → Type 0
Distinct [] = Unit
Distinct (t ∷ ts) = (any (has_id t.id) ts ≡ false) × Distinct ts

abbrev pub Differ : List Str → Type 0
Differ [] = Unit
Differ (r ∷ rs) = (any (λ q. q === r) rs ≡ false) × Differ rs

abbrev pub ActiveOpen : Option Str → List OpenTab → Type 0
ActiveOpen none ts = Unit
ActiveOpen (some id) ts = any (has_id id) ts ≡ true

Distinct-push :
    (ts : List OpenTab) (id path : Str)
    → any (has_id id) ts ≡ false
    → Distinct ts
    → Distinct (ts ++ tab_of id path ∷ [])
Distinct-push [] id path h v = (refl, tt)
Distinct-push (t ∷ ts) id path h (apart, v) =
    let comm = ===_comm t.id id in
    (
      any-append (has_id t.id) ts (tab_of id path ∷ []) ∙ ground arith,
      Distinct-push ts id path (ground arith) v,
    )

any-keep :
    (id other : Str) (ts : List OpenTab)
    → any (has_id id) ts ≡ false
    → any (has_id id) (keep (λ tab. not (has_id other tab)) ts) ≡ false
any-keep id other [] h = refl
any-keep id other (t ∷ ts) h = ground (arith, any-keep id other ts)

Distinct-keep :
    (id : Str) (ts : List OpenTab) → Distinct ts → Distinct (keep (λ tab. not (has_id id tab)) ts)
Distinct-keep id [] v = tt
Distinct-keep id (t ∷ ts) (apart, v) = elim (Bool-cases (has_id id t)) [
  | inl e ↦ simp e (Distinct-keep id ts v)
  | inr e ↦ simp e (any-keep t.id id ts apart, Distinct-keep id ts v)
]

any-keep_other :
    (current id : Str) (ts : List OpenTab)
    → (current === id) ≡ false
    → any (has_id current) ts ≡ true
    → any (has_id current) (keep (λ tab. not (has_id id tab)) ts) ≡ true
any-keep_other current id [] h k = cc
any-keep_other current id (t ∷ ts) h k = elim (Bool-cases (has_id current t)) [
  | inl e ↦
      let same = ===_sound t.id current e in
      let apart : has_id id t ≡ false = ap (λ x. x === id) same ∙ h in simp apart (rw (e, any) refl)
  | inr e ↦ elim (Bool-cases (has_id id t)) [
    | inl d ↦ simp d (any-keep_other current id ts h (ground arith))
    | inr d ↦ simp d (rw (e, any) (any-keep_other current id ts h (ground arith)))
  ]
]

last_id-ActiveOpen : (ts : List OpenTab) → ActiveOpen (last_id ts) ts
last_id-ActiveOpen [] = tt
last_id-ActiveOpen (t ∷ []) = let self = ===_refl t.id in ground arith
last_id-ActiveOpen (t ∷ u ∷ ts) = later (last_id (u ∷ ts)) (last_id-ActiveOpen (u ∷ ts))
  where
    later : (o : Option Str) → ActiveOpen o (u ∷ ts) → ActiveOpen o (t ∷ u ∷ ts)
    later none h = tt
    later (some id) h = ground arith

map-renamed-any :
    (k id path : Str) (ts : List OpenTab)
    → any (has_id k) (map (renamed id path) ts) ≡ any (has_id k) ts
map-renamed-any k id path [] = refl
map-renamed-any k id path (t ∷ ts) = elim (Bool-cases (has_id id t)) [
  | inl e ↦ simp e (ap (λ b. has_id k t || b) (map-renamed-any k id path ts))
  | inr e ↦ simp e (ap (λ b. has_id k t || b) (map-renamed-any k id path ts))
]

Distinct-map-renamed :
    (id path : Str) (ts : List OpenTab) → Distinct ts → Distinct (map (renamed id path) ts)
Distinct-map-renamed id path [] v = tt
Distinct-map-renamed id path (t ∷ ts) (apart, v) = elim (Bool-cases (has_id id t)) [
  | inl e ↦ simp e (map-renamed-any t.id id path ts ∙ apart, Distinct-map-renamed id path ts v)
  | inr e ↦ simp e (map-renamed-any t.id id path ts ∙ apart, Distinct-map-renamed id path ts v)
]

Differ-take : (n : ℕ) (rs : List Str) → Differ rs → Differ (take n rs)
Differ-take zero rs v = tt
Differ-take (suc n) [] v = tt
Differ-take (suc n) (r ∷ rs) (apart, v) = (any_take n r rs apart, Differ-take n rs v)
  where
    any_take :
        (n : ℕ) (r : Str) (rs : List Str)
        → any (λ q. q === r) rs ≡ false
        → any (λ q. q === r) (take n rs) ≡ false
    any_take zero r rs h = refl
    any_take (suc n) r [] h = refl
    any_take (suc n) r (q ∷ rs) h = ground (arith, any_take n r rs)

Differ-keep : (id : Str) (rs : List Str) → Differ rs → Differ (keep (λ r. not (r === id)) rs)
Differ-keep id [] v = tt
Differ-keep id (r ∷ rs) (apart, v) = elim (Bool-cases (r === id)) [
  | inl e ↦ simp e (Differ-keep id rs v)
  | inr e ↦ simp e (still r rs apart, Differ-keep id rs v)
]
  where
    still :
        (r : Str) (rs : List Str)
        → any (λ q. q === r) rs ≡ false
        → any (λ q. q === r) (keep (λ r. not (r === id)) rs) ≡ false
    still r [] h = refl
    still r (q ∷ rs) h = ground (arith, still r rs)

gone_id : (id : Str) (rs : List Str) → any (λ q. q === id) (keep (λ r. not (r === id)) rs) ≡ false
gone_id id [] = refl
gone_id id (q ∷ rs) = ground (arith, gone_id id rs)

abbrev pub Ordered : OpenFiles → Type 0
Ordered s =
    Distinct s.tabs
    × ActiveOpen s.active_id s.tabs
    × Differ s.recent_ids
    × (length s.recent_ids ≤ max_recent)

perform-Ordered : (s : OpenFiles) (o : Op) → Ordered s → Ordered (perform s o)
unfolding open_file close_file rename_tab
perform-Ordered s (opened id path) (distinct, active, differ, few) =
    let recent =
      Differ-take max_recent (id ∷ keep (λ r. not (r === id)) s.recent_ids)
        (gone_id id s.recent_ids, Differ-keep id s.recent_ids differ) in
    let short = length-take-le max_recent (id ∷ keep (λ r. not (r === id)) s.recent_ids) in
    elim (Bool-cases (any (has_id id) s.tabs)) [
      | inl e ↦ simp e (distinct, refl, recent, short)
      | inr e ↦
          let self = ===_refl id in
          simp e (
            Distinct-push s.tabs id path e distinct,
            any-append (has_id id) s.tabs (tab_of id path ∷ []) ∙ ground arith,
            recent,
            short,
          )
    ]
perform-Ordered s (closed_file id) (distinct, active, differ, few) =
    (Distinct-keep id s.tabs distinct, after s.active_id active, differ, few)
  where
    after :
        (o : Option Str)
        → ActiveOpen o s.tabs
        → ActiveOpen
            (active_after o id (keep (λ tab. not (has_id id tab)) s.tabs))
            (keep (λ tab. not (has_id id tab)) s.tabs)
    after none h = tt
    after (some current) h = elim (Bool-cases (current === id)) [
      | inl e ↦ rw e (last_id-ActiveOpen (keep (λ tab. not (has_id id tab)) s.tabs))
      | inr e ↦ rw e (any-keep_other current id s.tabs e h)
    ]
perform-Ordered s (moved id path) (distinct, active, differ, few) =
    (Distinct-map-renamed id path s.tabs distinct, still s.active_id active, differ, few)
  where
    still : (o : Option Str) → ActiveOpen o s.tabs → ActiveOpen o (map (renamed id path) s.tabs)
    still none h = tt
    still (some k) h = map-renamed-any k id path s.tabs ∙ h
perform-Ordered s (chosen id) (distinct, active, differ, few) =
    elim (Bool-cases (any (has_id id) s.tabs)) [
      | inl e ↦ simp e (distinct, refl, differ, few)
      | inr e ↦ simp e (distinct, active, differ, few)
    ]

-- After any operations no two tabs are of one file, the active file has a tab, and the recent files
-- are at most ten different ones.
pub perform_all-Ordered : (os : List Op) → Ordered (perform_all no_files os)
perform_all-Ordered os = go no_files os (tt, tt, tt, omega arith)
  where
    go : (s : OpenFiles) (os : List Op) → Ordered s → Ordered (perform_all s os)
    go s [] v = v
    go s (o ∷ os) v = go (perform s o) os (perform-Ordered s o v)
