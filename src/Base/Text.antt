-- ===== src/Base/Text.antt =====
-- JavaScript strings as lists of UTF-16 code units: `===`, `split`, `join`, `lastIndexOf`,
-- `startsWith`, `endsWith`, `includes` and `trim` of the language.
use Prim.Native.Nat.{ℕ, suc}
use Prim.Native.Char.{code}
use Prim.Native.String.{String}
use mathlib.Core.Path.{◌≡◌, refl}
use mathlib.Core.Logic.{◌↔◌, ◌≢◌, inl, inr}
use mathlib.Core.Bool.{Bool, true, false, ◌&&◌, ◌||◌}
use mathlib.Core.List.{List, [], ◌∷◌, ◌++◌, reverse}
use mathlib.Core.Option.{Option, none, some}
use native.Mathlib.Omega.{arith}
use collab_ide.Base.Tests.{leb, ◌==◌, if◌then◌else◌, Bool-cases}
use collab_ide.Base.Lists.{any}

abbrev pub Str : Type 0
Str = List ℕ

-- A literal; the source's literals are ASCII.
unfoldable pub text : String → Str
text String.[] = []
text (String.◌∷◌ c s) = code c ∷ text s

infix 50 ◌===◌
unfoldable pub ◌===◌ : Str → Str → Bool
[] === [] = true
[] === (d ∷ t) = false
(c ∷ s) === [] = false
(c ∷ s) === (d ∷ t) = (c == d) && (s === t)

pub ===_sound : (s t : Str) → (s === t) ≡ true → s ≡ t
unfolding ◌===◌
===_sound [] [] h = refl
===_sound [] (d ∷ t) h = cc
===_sound (c ∷ s) [] h = cc
===_sound (c ∷ s) (d ∷ t) h = ground (arith, ===_sound s t)

pub ===_refl : (s : Str) → (s === s) ≡ true
unfolding ◌===◌
===_refl [] = refl
===_refl (c ∷ s) = ground (arith, ===_refl s)

pub ===_iff : (s t : Str) → ((s === t) ≡ true) ↔ (s ≡ t)
===_iff s t = (===_sound s t, λ e. rw e (===_refl t))

pub ===_comm : (s t : Str) → (s === t) ≡ (t === s)
unfolding ◌===◌
===_comm [] [] = refl
===_comm [] (d ∷ t) = refl
===_comm (c ∷ s) [] = refl
===_comm (c ∷ s) (d ∷ t) = ground (arith, ===_comm s t)

-- `s.startsWith(prefix)`
unfoldable pub starts_with : Str → Str → Bool
starts_with s [] = true
starts_with [] (c ∷ p) = false
starts_with (d ∷ s) (c ∷ p) = (d == c) && starts_with s p

-- `s.endsWith(c)` for one code unit
unfoldable pub ends_with_char : Str → ℕ → Bool
ends_with_char [] c = false
ends_with_char (d ∷ []) c = d == c
ends_with_char (d ∷ e ∷ s) c = ends_with_char (e ∷ s) c

-- `s.includes(c)` for one code unit
abbrev pub includes_char : Str → ℕ → Bool
includes_char s c = any (λ d. d == c) s

-- What `trim` removes: WhiteSpace and LineTerminator of ECMA-262.
unfoldable pub is_space : ℕ → Bool
is_space c =
    (leb 9 c && leb c 13)
    || (c == 32)
    || (c == 160)
    || (c == 0x1680)
    || (leb 0x2000 c && leb c 0x200a)
    || (c == 0x2028)
    || (c == 0x2029)
    || (c == 0x202f)
    || (c == 0x205f)
    || (c == 0x3000)
    || (c == 0xfeff)

unfoldable pub trim_start : Str → Str
trim_start [] = []
trim_start (c ∷ s) = let rest = trim_start s in if is_space c then rest else c ∷ s

unfoldable pub trim : Str → Str
unfolding trim_start
trim s = reverse (trim_start (reverse (trim_start s)))

-- `s.split(sep)` for one code unit: never empty.
abbrev pub cons_head : ℕ → List Str → List Str
cons_head c [] = (c ∷ []) ∷ []
cons_head c (p ∷ ps) = (c ∷ p) ∷ ps

unfoldable pub split : ℕ → Str → List Str
split sep [] = [] ∷ []
split sep (c ∷ s) = let rest = split sep s in if c == sep then [] ∷ rest else cons_head c rest

-- `parts.join(sep)` for one code unit
unfoldable pub join : ℕ → List Str → Str
join sep [] = []
join sep (p ∷ []) = p
join sep (p ∷ q ∷ ps) = p ++ sep ∷ join sep (q ∷ ps)

-- `s.lastIndexOf(sep)` for one code unit; none for -1.
unfoldable pub last_index_of : Str → ℕ → Option ℕ
last_index_of [] c = none
last_index_of (d ∷ s) c = elim (last_index_of s c) [
  | some i ↦ some (suc i)
  | none ↦ if d == c then some 0 else none
]

pub split-ne-nil : (sep : ℕ) (s : Str) → split sep s ≢ []
unfolding split
split-ne-nil sep [] e = cc
split-ne-nil sep (c ∷ s) e = elim (Bool-cases (c == sep)) [
  | inl h ↦ cc (rw h at e)
  | inr h ↦ cons_head-ne c (split sep s) (rw h at e)
]
  where
    cons_head-ne : (c : ℕ) (ps : List Str) → cons_head c ps ≢ []
    cons_head-ne c [] e = cc
    cons_head-ne c (p ∷ ps) e = cc

pub split_no_sep : (sep : ℕ) (s : Str) → includes_char s sep ≡ false → split sep s ≡ s ∷ []
unfolding split
split_no_sep sep [] h = refl
split_no_sep sep (c ∷ s) h = ground (arith, split_no_sep sep s)

pub split_at_sep :
    (sep : ℕ) (s t : Str) → includes_char s sep ≡ false → split sep (s ++ sep ∷ t) ≡ s ∷ split sep t
unfolding split
split_at_sep sep [] t h = ground arith
split_at_sep sep (c ∷ s) t h = ground (arith, split_at_sep sep s t)

join-cons_head : (sep c : ℕ) (ps : List Str) → join sep (cons_head c ps) ≡ c ∷ join sep ps
unfolding join
join-cons_head sep c [] = refl
join-cons_head sep c (p ∷ []) = refl
join-cons_head sep c (p ∷ q ∷ ps) = refl

join-nil_cons : (sep : ℕ) (ps : List Str) → ps ≢ [] → join sep ([] ∷ ps) ≡ sep ∷ join sep ps
unfolding join
join-nil_cons sep [] h = absurd (h refl)
join-nil_cons sep (p ∷ ps) h = refl

pub join-split : (sep : ℕ) (s : Str) → join sep (split sep s) ≡ s
unfolding split
join-split sep [] = unfold join in refl
join-split sep (c ∷ s) = elim (Bool-cases (c == sep)) [
  | inl h ↦
      rw (h, join-nil_cons sep (split sep s) (split-ne-nil sep s), join-split sep s) (ground arith)
  | inr h ↦ rw (h, join-cons_head sep c (split sep s), join-split sep s)
]
