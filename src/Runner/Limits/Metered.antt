-- ===== src/Runner/Limits/Metered.antt =====
-- sandbox/limits.ts: what a run has forwarded at each step.
use collab_ide.Base.{
  ℕ, ◌+◌, ◌-◌, ◌≤◌, ◌<◌, ◌≡◌, refl, sym, ap, ◌∙◌, inl, inr, ◌⊎◌, true, false, List, [], ◌∷◌, ◌++◌,
  append_assoc, append-nil, take, length, length-append, length-take, length-take-le, take_all, ltb,
  leb, Bool-cases, arith,
}
use collab_ide.Shared.Languages.{OutputStream, max_output_bytes}
use collab_ide.Runner.Limits.{
  AbortReason, by_timeout, by_output, Chunk, RunState, start, abort_over, abort_with, forward,
  forward_rest, for_output, on_output, Event, said, timer, step, run, ContainerResult, ended,
  failed, timed_out, report,
}
use collab_ide.Runner.Limits.Bytes.{
  of_chunk, bytes_of, chunks_of, bytes_of-snoc, length-of_bytes, take-of_bytes, take-append,
  take-take_append,
}

ltb_positive : (n : ℕ) → ltb 0 n ≡ true → 0 < n
ltb_positive n h = ground arith

ltb_nothing : (n : ℕ) → ltb 0 n ≡ false → n ≡ 0
ltb_nothing n h = ground arith

length_filled :
    {A : Type 0} (n : ℕ) (sent w : List A)
    → length sent ≤ n
    → n ≤ length sent + length w
    → length (sent ++ take (n - length sent) w) ≡ n
length_filled n sent w h k =
    omega (arith, length-append sent (take (n - length sent) w), length-take (n - length sent) w)

-- The first `n` bytes of `seen ++ w`, from those of `seen`.
take-seen :
    {A : Type 0} (n : ℕ) (sent seen w : List A)
    → sent ≡ take n seen
    → take n (seen ++ w) ≡ sent ++ take (n - length sent) w
take-seen n sent seen w e =
    sym (take-take_append n seen w)
    ∙ ap (λ x. take n (x ++ w)) (sym e)
    ∙ take-append n sent w (rw e (length-take-le n seen))

module _ (recode : List ℕ → List ℕ) where
  -- What is forwarded of the pieces `raw`: themselves, or one of them decoded, where they fill the budget and more was printed.
  abbrev pub Shows : List (OutputStream × ℕ) → List Chunk → List Chunk → Type 0
  Shows seen raw forwarded =
      (forwarded ≡ raw)
      ⊎ ((max_output_bytes < length seen)
          × (length (bytes_of raw) ≡ max_output_bytes)
          × ((before : List Chunk) × (cut : Chunk) × (after : List Chunk) × (raw
                ≡ before ++ cut ∷ after)
              × (forwarded ≡ before ++ record cut { bytes = recode cut.bytes } ∷ after)))

  -- What holds after the chunks `seen`: exactly the first megabyte of them has been forwarded, as the pieces `raw`.
  pub record Metered (seen : List (OutputStream × ℕ)) (s : RunState) : Type 0 where
    pub raw : List Chunk
    pub prefix : bytes_of raw ≡ take max_output_bytes seen
    pub counted : s.sent_bytes ≡ length (bytes_of raw)
    pub full : for_output s.reason ≡ true → length (bytes_of raw) ≡ max_output_bytes
    pub shown : Shows seen raw s.forwarded

  Shows-longer :
      (seen w : List (OutputStream × ℕ)) (raw forwarded : List Chunk)
      → Shows seen raw forwarded
      → Shows (seen ++ w) raw forwarded
  Shows-longer seen w raw forwarded (inl same) = inl same
  Shows-longer seen w raw forwarded (inr (over, filled, pieces)) =
      inr (omega (arith, length-append seen w), filled, pieces)

  Shows-snoc :
      (seen : List (OutputStream × ℕ)) (raw forwarded : List Chunk) (c : Chunk)
      → Shows seen raw forwarded
      → length (bytes_of raw) + length c.bytes ≤ max_output_bytes
      → Shows (seen ++ of_chunk c) (raw ++ c ∷ []) (forwarded ++ c ∷ [])
  Shows-snoc seen raw forwarded c (inl same) fits = inl (ap (λ cs. cs ++ c ∷ []) same)
  Shows-snoc seen raw forwarded c (inr (over, filled, (before, cut, after, one, two))) fits =
      let size = length-of_bytes c.stream c.bytes in
      inr (
        omega (arith, length-append seen (of_chunk c)),
        ap length (bytes_of-snoc raw c)
            ∙ omega (arith, length-append (bytes_of raw) (of_chunk c), size),
        (
          before,
          cut,
          after ++ c ∷ [],
          ap (λ cs. cs ++ c ∷ []) one ∙ append_assoc before (cut ∷ after) (c ∷ []),
          ap (λ cs. cs ++ c ∷ []) two
              ∙ append_assoc before (record cut { bytes = recode cut.bytes } ∷ after) (c ∷ []),
        ),
      )

  Shows-cut :
      (seen : List (OutputStream × ℕ)) (raw forwarded : List Chunk) (cut : Chunk)
      (w : List (OutputStream × ℕ))
      → Shows seen raw forwarded
      → length (bytes_of raw) < max_output_bytes
      → length (bytes_of (raw ++ cut ∷ [])) ≡ max_output_bytes
      → max_output_bytes < length (seen ++ w)
      → Shows
          (seen ++ w)
          (raw ++ cut ∷ [])
          (forwarded ++ record cut { bytes = recode cut.bytes } ∷ [])
  Shows-cut seen raw forwarded cut w (inl same) room filled over = inr (
    over,
    filled,
    (raw, cut, [], refl, ap (λ cs. cs ++ record cut { bytes = recode cut.bytes } ∷ []) same),
  )
  Shows-cut seen raw forwarded cut w (inr (over', filled', pieces)) room filled over =
      absurd (omega arith)

  forward-Metered :
      (seen : List (OutputStream × ℕ)) (c : Chunk) (s : RunState)
      → Metered seen s
      → for_output s.reason ≡ false
      → s.sent_bytes + length c.bytes ≤ max_output_bytes
      → Metered (seen ++ of_chunk c) (forward c s)
  unfolding forward
  forward-Metered seen c s v going fits =
      let sent = bytes_of v.raw in
      let counted = v.counted in
      let size = length-of_bytes c.stream c.bytes in
      let grown = bytes_of-snoc v.raw c in
      record {
        raw = v.raw ++ c ∷ [];
        prefix =
            grown
            ∙ ap (◌++◌ sent)
                (sym (take_all (max_output_bytes - length sent) (of_chunk c) (omega (arith, size))))
            ∙ sym (take-seen max_output_bytes sent seen (of_chunk c) v.prefix);
        counted = rw grown (omega (arith, length-append sent (of_chunk c), size));
        full = λ h. cc;
        shown = Shows-snoc seen v.raw s.forwarded c v.shown (omega arith);
      }

  abort_with_lem :
      (why : AbortReason) (s : RunState)
      → ((abort_with why s).forwarded ≡ s.forwarded)
        × ((abort_with why s).sent_bytes ≡ s.sent_bytes)
  unfolding abort_with abort_over
  abort_with_lem why s = ground arith

  -- What is cut from the chunk fills the budget.
  cut-Metered :
      (seen : List (OutputStream × ℕ)) (c : Chunk) (s : RunState)
      → Metered seen s
      → max_output_bytes < s.sent_bytes + length c.bytes
      → Metered (seen ++ of_chunk c) (abort_with by_output (forward_rest recode c s))
  unfolding forward_rest
  cut-Metered seen c s v over =
      let sent = bytes_of v.raw in
      let remaining = max_output_bytes - s.sent_bytes in
      let cut : Chunk = record c { bytes = take remaining c.bytes } in
      let counted = v.counted in
      let size = length-of_bytes c.stream c.bytes in
      let within : length sent ≤ max_output_bytes =
        rw v.prefix (length-take-le max_output_bytes seen) in
      let more : max_output_bytes < length (seen ++ of_chunk c) =
        (let least : length sent ≤ length seen =
            (let n = ap length v.prefix in omega (arith, n, length-take max_output_bytes seen)) in
          omega (arith, length-append seen (of_chunk c), size)) in
      let filled : length (sent ++ take (max_output_bytes - length sent) (of_chunk c))
          ≡ max_output_bytes =
        length_filled max_output_bytes sent (of_chunk c) within (omega (arith, size)) in
      let whole = sym (take-seen max_output_bytes sent seen (of_chunk c) v.prefix) in
      let (same, count) = abort_with_lem by_output (forward_rest recode c s) in
      elim (Bool-cases (ltb 0 remaining)) [
        | inl some_left ↦
            let grown : bytes_of (v.raw ++ cut ∷ [])
                ≡ sent ++ take (max_output_bytes - length sent) (of_chunk c) =
              bytes_of-snoc v.raw cut
              ∙ ap (◌++◌ sent) (
                  take-of_bytes c.stream remaining c.bytes
                  ∙ ap (λ n. take (max_output_bytes - n) (of_chunk c)) counted) in
            let sent_all : (forward_rest recode c s).sent_bytes ≡ max_output_bytes =
              simp some_left
                (let room : s.sent_bytes ≤ max_output_bytes = omega arith in omega arith) in
            let shown : (forward_rest recode c s).forwarded
                ≡ s.forwarded ++ record cut { bytes = recode cut.bytes } ∷ [] =
              simp some_left refl in
            let positive = ltb_positive remaining some_left in
            let room : length sent < max_output_bytes = omega arith in
            record {
              raw = v.raw ++ cut ∷ [];
              prefix = grown ∙ whole;
              counted = count ∙ sent_all ∙ sym (ap length grown ∙ filled);
              full = λ _. ap length grown ∙ filled;
              shown =
                  rw (same, shown)
                    (Shows-cut seen v.raw s.forwarded cut (of_chunk c) v.shown room
                      (ap length grown ∙ filled) more);
            }
        | inr none_left ↦
            let nothing : max_output_bytes - length sent ≡ 0 =
              ap (λ n. max_output_bytes - n) (sym counted) ∙ ltb_nothing remaining none_left in
            let all : length sent ≡ max_output_bytes = omega arith in
            let kept : forward_rest recode c s ≡ s = simp none_left refl in
            record {
              raw = v.raw;
              prefix =
                  sym (append-nil sent)
                  ∙ sym (ap (λ n. sent ++ take n (of_chunk c)) nothing)
                  ∙ whole;
              counted = count ∙ ap (λ r. r.sent_bytes) kept ∙ counted;
              full = λ _. all;
              shown = rw (same, kept) (Shows-longer seen (of_chunk c) v.raw s.forwarded v.shown);
            }
      ]

  tripped-Metered :
      (seen w : List (OutputStream × ℕ)) (s : RunState)
      → Metered seen s
      → for_output s.reason ≡ true
      → Metered (seen ++ w) s
  tripped-Metered seen w s v done =
      let sent = bytes_of v.raw in
      let full = v.full done in
      let nothing : max_output_bytes - length sent ≡ 0 = omega arith in
      record {
        raw = v.raw;
        prefix =
            sym (append-nil sent)
            ∙ sym (ap (λ n. sent ++ take n w) nothing)
            ∙ sym (take-seen max_output_bytes sent seen w v.prefix);
        counted = v.counted;
        full = v.full;
        shown = Shows-longer seen w v.raw s.forwarded v.shown;
      }

  on_output-Metered :
      (seen : List (OutputStream × ℕ)) (c : Chunk) (s : RunState)
      → Metered seen s
      → Metered (seen ++ of_chunk c) (on_output recode c s)
  unfolding on_output
  on_output-Metered seen c s v = elim (Bool-cases (for_output s.reason)) [
    | inl done ↦ simp done (tripped-Metered seen (of_chunk c) s v done)
    | inr going ↦ elim (Bool-cases (leb (s.sent_bytes + length c.bytes) max_output_bytes)) [
      | inl fits ↦ simp (going, fits) (forward-Metered seen c s v going (ground arith))
      | inr over ↦ simp (going, over) (cut-Metered seen c s v (ground arith))
    ]
  ]

  timer-for_output :
      (s : RunState) → for_output (abort_with by_timeout s).reason ≡ for_output s.reason
  unfolding abort_with abort_over
  timer-for_output s = ground arith

  timer-Metered :
      (seen : List (OutputStream × ℕ)) (s : RunState)
      → Metered seen s
      → Metered seen (abort_with by_timeout s)
  timer-Metered seen s v =
      let (same, count) = abort_with_lem by_timeout s in
      let why = timer-for_output s in
      record {
        raw = v.raw;
        prefix = v.prefix;
        counted = count ∙ v.counted;
        full = λ h. v.full (sym why ∙ h);
        shown = rw same v.shown;
      }

  pub run-Metered :
      (seen : List (OutputStream × ℕ)) (s : RunState) (es : List Event)
      → Metered seen s
      → Metered (seen ++ bytes_of (chunks_of es)) (run recode s es)
  unfolding run step
  run-Metered seen s [] v = rw (append-nil seen) v
  run-Metered seen s (timer ∷ es) v =
      run-Metered seen (abort_with by_timeout s) es (timer-Metered seen s v)
  run-Metered seen s (said c ∷ es) v =
      rw (sym (append_assoc seen (of_chunk c) (bytes_of (chunks_of es))))
        (run-Metered (seen ++ of_chunk c) (on_output recode c s) es (on_output-Metered seen c s v))

  pub report-truncated :
      (s : RunState) (container : ContainerResult)
      → (report s container).truncated ≡ true
      → for_output s.reason ≡ true
  unfolding report
  report-truncated s (ended code ms) = elim (Bool-cases (timed_out s.reason)) [
    | inl late ↦ simp late (λ h. absurd (ground arith))
    | inr early ↦ simp early (λ h. h)
  ]
  report-truncated s (failed message ms) = λ h. h

  pub start-Metered : Metered [] start
  start-Metered = record {
    raw = [];
    prefix = refl;
    counted = refl;
    full = λ h. absurd (ground arith);
    shown = inl refl;
  }

  pub forward_rest-reason : (c : Chunk) (s : RunState) → (forward_rest recode c s).reason ≡ s.reason
  unfolding forward_rest
  forward_rest-reason c s = elim (Bool-cases (ltb 0 (max_output_bytes - s.sent_bytes))) [
    | inl some_left ↦ simp some_left refl
    | inr none_left ↦ simp none_left refl
  ]
