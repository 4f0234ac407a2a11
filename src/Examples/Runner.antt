-- ===== src/Examples/Runner.antt =====
-- A program that prints two bytes.
use collab_ide.Base.{
  ℕ, zero, suc, ap, ◌≡◌, refl, Bool, false, none, List, [], ◌∷◌, take, length, Str, ltb,
  if◌then◌else◌,
}
use collab_ide.Shared.Languages.{stdout, max_output_bytes, exit}
use collab_ide.Runner.Limits.{Chunk, said, timer, ended, run_with_limits}
use collab_ide.Runner.Limits.Bytes.{bytes_of}
use collab_ide.Runner.Limits.Metered.{Shows}
use collab_ide.Runner.Limits.Budget.{run_with_limits_budget}
use collab_ide.Runner.Worker.{threw, frame_of, handle_run_job}
use collab_ide.Runner.Worker.OneExit.{last_frame, handle_run_job-issued}

abbrev hi : Chunk
hi = record { stream = stdout; bytes = b'h' ∷ b'i' ∷ [] }

abbrev same_text : List ℕ → Str
same_text bytes = bytes

abbrev never : ℕ → Bool
never n = false

-- ASCII is decoded to itself, and anything else to one U+FFFD.
abbrev ascii : List ℕ → List ℕ
ascii [] = []
ascii (b ∷ bs) = if ltb b 128 then b ∷ ascii bs else 239 ∷ 191 ∷ 189 ∷ []

run_with_limits_budget_example :
    (raw : List Chunk) × (bytes_of raw ≡ take max_output_bytes (bytes_of (hi ∷ hi ∷ [])))
    × Shows ascii
        (bytes_of (hi ∷ hi ∷ []))
        raw
        (run_with_limits ascii (said hi ∷ timer ∷ said hi ∷ []) (ended none 10_000)).1
run_with_limits_budget_example =
    run_with_limits_budget ascii (said hi ∷ timer ∷ said hi ∷ []) (ended none 10_000)

repeat : ℕ → List ℕ
repeat zero = []
repeat (suc n) = b'a' ∷ repeat n

length-repeat : (n : ℕ) → length (repeat n) ≡ n
unfolding repeat
length-repeat zero = refl
length-repeat (suc n) = ap suc (length-repeat n)

-- One byte above the budget.
abbrev loud : Chunk
loud = record { stream = stdout; bytes = repeat 1_000_001 }

handle_run_job-issued_example :
    (handle_run_job same_text never threw (hi ∷ [])).issued
    ≡ frame_of same_text never hi ∷ exit (last_frame threw) ∷ []
handle_run_job-issued_example = handle_run_job-issued same_text never threw (hi ∷ [])
