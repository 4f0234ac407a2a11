-- ===== src/Examples/Scan.antt =====
-- A search of a project with one file: a worker reads it, and all workers return.
use collab_ide.Base.{
  ℕ, zero, suc, index_of, index_from, starts_with, ◌+◌, ◌≡◌, ◌≤◌, ◌<◌, ◌⊎◌, refl, arith, true,
  false, List, [], ◌∷◌, none, Str, length, min,
}
use collab_ide.Search.Contents.{match_content, search_from}
use collab_ide.Search.Tree.{FlatNode}
use collab_ide.Search.Scan.{
  Scan, received, scan_start, worker_turn, worker_answered, all_settled, shown_of, done,
  concurrency, max_content_matches,
}
use collab_ide.Search.Scan.Steps.{Runs, here, next, turn, answer}
use collab_ide.Search.Scan.Bounds.{Runs-Counted_start, most_hits, total}
use collab_ide.Search.Scan.Finish.{Runs-bounded, Runs-all_settled, total_of}

abbrev lower : Str → Str
lower s = s

abbrev query : Str
query = b'b' ∷ b'b' ∷ []

abbrev file : FlatNode
file = record {
  id = b'1' ∷ [];
  path = b'a' ∷ [];
  name = b'a' ∷ [];
  is_dir = false;
  updated_at = [];
}

abbrev files : List FlatNode
files = file ∷ []

abbrev started : Scan
started = scan_start lower query files []

abbrev taken : Scan
taken = worker_turn lower query files started

abbrev answered : Scan
answered = worker_answered lower query files 0 (file, none) (received (b'x' ∷ [])) 100 taken

abbrev turns : ℕ → Scan → Scan
turns zero s = s
turns (suc n) s = turns n (worker_turn lower query files s)

abbrev over : Scan
over = turns 6 answered

read_run : Runs lower query files started 2 answered
unfolding worker_turn worker_answered
read_run =
    next (next here (turn (omega arith))) (answer 0 (file, none) (received (b'x' ∷ [])) 100 refl)

over_run : Runs lower query files started 8 over
unfolding worker_turn worker_answered match_content search_from index_of index_from starts_with
over_run =
    next
      (next
        (next
          (next (next (next read_run (turn (omega arith))) (turn (omega arith)))
            (turn (omega arith)))
          (turn (omega arith)))
        (turn (omega arith)))
      (turn (omega arith))

Runs-Counted_start_example :
    (answered.ready + length answered.reading ≤ concurrency)
    × (answered.cancelled ≡ false
        → answered.scanned + length answered.reading
          ≡ min answered.cursor (total lower query files))
    × (length answered.hits ≤ most_hits)
    × (answered.capped ≡ false → length answered.hits < max_content_matches)
Runs-Counted_start_example = Runs-Counted_start lower query files [] 2 answered read_run

Runs-bounded_example : 8 ≤ 907
Runs-bounded_example = Runs-bounded lower query files [] 8 over over_run

over_ready : over.ready ≡ 0
unfolding worker_turn worker_answered match_content search_from index_of index_from starts_with
over_ready = refl

over_reading : length over.reading ≡ 0
unfolding worker_turn worker_answered match_content search_from index_of index_from starts_with
over_reading = refl

over_live : over.cancelled ≡ false
unfolding worker_turn worker_answered match_content search_from index_of index_from starts_with
over_live = refl

Runs-all_settled_example :
    ((all_settled lower query files 200 over).shown ≡ shown_of lower query files done over)
    × ((over.capped ≡ true) ⊎ (over.scanned ≡ total_of lower query files))
Runs-all_settled_example =
    Runs-all_settled lower query files [] 8 200 over over_run over_ready over_reading over_live
