-- ===== src/Client/Runs/Streams.antt =====
-- What the calls of a run keep: the stream that is open, the request that is asked, the reports.
use collab_ide.Base.{
  ℕ, ◌+◌, ◌≡◌, refl, sym, ap, ◌∙◌, arith, Bool, true, false, not, List, [], ◌∷◌, ◌++◌, Option, none,
  some, Str, any, keep, count, ◌==◌, is_some, Bool-cases, Option-cases, inl, inr, subst,
}
use collab_ide.Database.Distinct.{one_if}
use collab_ide.Client.Runs.{
  RunState, idle, starting, running, finished, Failure, Write, clear, chunk, line, Runs,
  close_stream, close_source, start, begin, open_stream, not_started, is_busy, RunSummary,
  message_for,
}

abbrev pub is_report : Write → Bool
is_report clear = false
is_report (chunk stream data_) = false
is_report (line text_) = true

abbrev pub is_starting : RunState → Bool
is_starting idle = false
is_starting starting = true
is_starting running = false
is_starting finished = false

abbrev pub current : Option ℕ → List ℕ
current none = []
current (some i) = i ∷ []

abbrev pub belongs : Option ℕ → RunState → Bool
belongs none state = true
belongs (some i) idle = false
belongs (some i) starting = false
belongs (some i) running = true
belongs (some i) finished = false

pub record Tidy (s : Runs) : Type 0 where
  pub known : s.streams ≡ current s.source
  pub asked : s.pending ≡ one_if (is_starting s.state)
  pub reported : count is_report s.terminal + one_if (is_busy s.state) ≡ s.posted
  pub in_run : belongs s.source s.state ≡ true

pub reports-add :
    (ws : List Write) (w : Write)
    → count is_report (ws ++ w ∷ []) ≡ count is_report ws + one_if (is_report w)
reports-add [] clear = refl
reports-add [] (chunk stream data_) = refl
reports-add [] (line text_) = refl
reports-add (v ∷ ws) w = let rest = reports-add ws w in ground arith

emptied :
    (s : Runs) → s.source ≡ none → s.streams ≡ [] → s ≡ record s { source = none; streams = [] }
emptied s e f =
    ap (λ o. record s { source = o }) e ∙ ap (λ l. record s { source = none; streams = l }) f

-- The current stream is closed, and nothing else is open.
pub close_stream-emptied :
    (s : Runs)
    → s.streams ≡ current s.source
    → close_stream s ≡ record s { source = none; streams = [] }
close_stream-emptied s known = elim (Option-cases s.source) [
  | inl e ↦
      let streams : s.streams ≡ [] = known ∙ ap current e in
      ap (λ o. close_source o s) e ∙ emptied s e streams
  | inr (i, e) ↦
      let same : (i == i) ≡ true = ground arith in
      let streams : keep (λ j. not (j == i)) s.streams ≡ [] =
        ap (keep (λ j. not (j == i))) (known ∙ ap current e) ∙ rw same refl in
      ap (λ o. close_source o s) e ∙ ap (λ l. record s { source = none; streams = l }) streams
]

calm : (state : RunState) → is_busy state ≡ false → is_starting state ≡ false
calm idle h = refl
calm starting h = cc
calm running h = refl
calm finished h = refl

waiting :
    (state : RunState) (n : ℕ)
    → n ≡ one_if (is_starting state)
    → (n == 0) ≡ false
    → state ≡ starting
waiting idle n h e = ground arith
waiting starting n h e = refl
waiting running n h e = ground arith
waiting finished n h e = ground arith

sourceless : (o : Option ℕ) → belongs o starting ≡ true → o ≡ none
sourceless none h = refl
sourceless (some i) h = cc

pub live_source :
    (i : ℕ) (o : Option ℕ) (state : RunState)
    → belongs o state ≡ true
    → any (λ j. j == i) (current o) ≡ true
    → (state ≡ running) × (is_some o ≡ true)
live_source i none state h live = cc
live_source i (some j) idle h live = cc
live_source i (some j) starting h live = cc
live_source i (some j) running h live = (refl, refl)
live_source i (some j) finished h live = cc

pub start-Tidy : (s : Runs) → Tidy s → Tidy (start s)
start-Tidy s t = elim (Bool-cases (is_busy s.state)) [
  | inl busy ↦ subst Tidy (sym (simp busy refl)) t
  | inr free ↦
      let started : start s ≡ begin (record s { source = none; streams = [] }) =
        simp free (ap begin (close_stream-emptied s t.known)) in
      subst Tidy (sym started) (record {
        known = refl;
        asked = (let still = calm s.state free in let pending = t.asked in ground arith);
        reported =
            (let more = reports-add s.terminal clear in let before = t.reported in ground arith);
        in_run = refl;
      })
]

pub open_stream-Tidy : (s : Runs) → Tidy s → (s.pending == 0) ≡ false → Tidy (open_stream s)
open_stream-Tidy s t some_pending =
    let state : s.state ≡ starting = waiting s.state s.pending t.asked some_pending in
    let source : s.source ≡ none =
      sourceless s.source (ap (belongs s.source) (sym state) ∙ t.in_run) in
    let before : count is_report s.terminal + one_if (is_busy s.state) ≡ s.posted = t.reported in
    record {
      known = ap (◌∷◌ s.made) (t.known ∙ ap current source);
      asked = (let pending = t.asked ∙ ap (λ x. one_if (is_starting x)) state in ground arith);
      reported = (ap (λ x. count is_report s.terminal + one_if (is_busy x)) (sym state) ∙ before);
      in_run = refl;
    }

pub not_started-Tidy :
    (s : Runs) (failure : Failure)
    → Tidy s
    → (s.pending == 0) ≡ false
    → Tidy (not_started failure s)
not_started-Tidy s failure t some_pending =
    let state : s.state ≡ starting = waiting s.state s.pending t.asked some_pending in
    let source : s.source ≡ none =
      sourceless s.source (ap (belongs s.source) (sym state) ∙ t.in_run) in
    record {
      known = t.known;
      asked = (let pending = t.asked ∙ ap (λ x. one_if (is_starting x)) state in ground arith);
      reported =
          (let more = reports-add s.terminal (line (message_for failure)) in
            let before =
              ap (λ x. count is_report s.terminal + one_if (is_busy x)) (sym state) ∙ t.reported in
            ground arith);
      in_run = ap (λ o. belongs o finished) source;
    }

-- A run that is on ends with one report, whatever the summary is.
pub ended-Tidy :
    (s : Runs) (report : Str) (summary : Option RunSummary)
    → Tidy s
    → s.state ≡ running
    → Tidy (
        close_stream (record s {
          terminal = s.terminal ++ line report ∷ [];
          summary = summary;
          state = finished;
        }))
ended-Tidy s report summary t state =
    let s' : Runs = record s {
      terminal = s.terminal ++ line report ∷ [];
      summary = summary;
      state = finished;
    } in
    subst Tidy (sym (close_stream-emptied s' t.known)) (record {
      known = refl;
      asked = t.asked ∙ ap (λ x. one_if (is_starting x)) state;
      reported =
          (let more = reports-add s.terminal (line report) in
            let before =
              ap (λ x. count is_report s.terminal + one_if (is_busy x)) (sym state) ∙ t.reported in
            ground arith);
      in_run = refl;
    })
