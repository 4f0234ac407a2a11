-- ===== src/Runner/Limits/Bytes.antt =====
-- Chunks as lists of tagged bytes, and prefixes of such lists.
use collab_ide.Base.{
  ℕ, zero, suc, ◌-◌, ◌≤◌, ◌≡◌, refl, sym, ap, ◌∙◌, List, [], ◌∷◌, ◌++◌, map, append_assoc,
  append-nil, take, length, arith,
}
use collab_ide.Shared.Languages.{OutputStream}
use collab_ide.Runner.Limits.{Chunk, Event, said, timer}

-- The bytes of chunks, each with its stream.
abbrev tag : OutputStream → List ℕ → List (OutputStream × ℕ)
tag stream bytes = map (λ b. (stream, b)) bytes

abbrev pub of_chunk : Chunk → List (OutputStream × ℕ)
of_chunk c = tag c.stream c.bytes

abbrev pub bytes_of : List Chunk → List (OutputStream × ℕ)
bytes_of [] = []
bytes_of (c ∷ cs) = of_chunk c ++ bytes_of cs

abbrev pub chunks_of : List Event → List Chunk
chunks_of [] = []
chunks_of (said c ∷ es) = c ∷ chunks_of es
chunks_of (timer ∷ es) = chunks_of es

pub bytes_of-snoc :
    (cs : List Chunk) (c : Chunk) → bytes_of (cs ++ c ∷ []) ≡ bytes_of cs ++ of_chunk c
bytes_of-snoc [] c = append-nil (of_chunk c)
bytes_of-snoc (d ∷ cs) c =
    ap (◌++◌ (of_chunk d)) (bytes_of-snoc cs c)
    ∙ sym (append_assoc (of_chunk d) (bytes_of cs) (of_chunk c))

pub length-of_bytes : (s : OutputStream) (bs : List ℕ) → length (tag s bs) ≡ length bs
length-of_bytes s [] = refl
length-of_bytes s (b ∷ bs) = ap suc (length-of_bytes s bs)

pub take-of_bytes : (s : OutputStream) (n : ℕ) (bs : List ℕ) → tag s (take n bs) ≡ take n (tag s bs)
take-of_bytes s zero bs = refl
take-of_bytes s (suc n) [] = refl
take-of_bytes s (suc n) (b ∷ bs) = ap (◌∷◌ (s, b)) (take-of_bytes s n bs)

pub take-append :
    {A : Type 0} (n : ℕ) (xs ys : List A)
    → length xs ≤ n
    → take n (xs ++ ys) ≡ xs ++ take (n - length xs) ys
take-append n [] ys h = ap (λ m. take m ys) (omega arith)
take-append zero (x ∷ xs) ys h = absurd (omega arith)
take-append (suc n) (x ∷ xs) ys h =
    ap (◌∷◌ x) (take-append n xs ys (omega arith) ∙ ap (λ m. xs ++ take m ys) (omega arith))

pub take-take_append :
    {A : Type 0} (n : ℕ) (xs ys : List A) → take n (take n xs ++ ys) ≡ take n (xs ++ ys)
take-take_append zero xs ys = refl
take-take_append (suc n) [] ys = refl
take-take_append (suc n) (x ∷ xs) ys = ap (◌∷◌ x) (take-take_append n xs ys)
