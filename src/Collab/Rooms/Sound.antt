-- ===== src/Collab/Rooms/Sound.antt =====
-- The invariant of the rooms, and the steps that make a room.
use collab_ide.Base.{
  ℕ, ◌≤◌, ◌<◌, ◌≡◌, ◌≢◌, ◌⊎◌, inl, inr, refl, ap, sym, ◌∙◌, arith, true, [], Option, none, some,
  Str, ◌==◌, Bool-cases, leb, leb→le,
}
use collab_ide.Collab.Rooms.{
  Stage, unborn, loading, missing, failed, opened, flushing, destroyed, waiting, Rooms, first_stage,
  await_room,
}
use collab_ide.Collab.Rooms.Maps.{is_live, is_making, holds, put_doc_cases}

module _ (conn_doc : ℕ → Str) where
  -- A room in the map is alive and is of its document; a room with connections is open and is the one
  -- in the map of their document; a room is in the map while it is made; a final write on the way is
  -- the pending one of its document, and the room in the map waits for it; a connection that leaves
  -- is still in its room.
  pub record Sound (s : Rooms) : Type 0 where
    pub fresh : (p : ℕ) → s.next ≤ p → (s.stage p ≡ unborn) × (s.conns p ≡ [])
    pub mapped :
        (d : Str) (p : ℕ) → s.rooms d ≡ some p → (s.doc_of p ≡ d) × (is_live (s.stage p) ≡ true)
    pub held :
        (p c : ℕ)
        → holds c (s.conns p) ≡ true
        → (s.stage p ≡ opened) × (conn_doc c ≡ s.doc_of p) × (s.rooms (s.doc_of p) ≡ some p)
    pub making : (p : ℕ) → is_making (s.stage p) ≡ true → s.rooms (s.doc_of p) ≡ some p
    pub writing : (p : ℕ) → s.stage p ≡ flushing → s.pending_writes (s.doc_of p) ≡ some p
    pub written :
        (d : Str) (w : ℕ) → s.pending_writes d ≡ some w → (s.stage w ≡ flushing) × (s.doc_of w ≡ d)
    pub blocked :
        (d : Str) (p w : ℕ)
        → s.rooms d ≡ some p
        → s.pending_writes d ≡ some w
        → s.stage p ≡ waiting w
    pub leaver : (c p : ℕ) → s.leaving c ≡ some p → holds c (s.conns p) ≡ true

  -- A room that has a stage is one of those made so far.
  born : (s : Rooms) → Sound s → (p : ℕ) → s.stage p ≢ unborn → p < s.next
  born s v p ne = elim (Bool-cases (leb s.next p)) [
    | inl h ↦ let (unmade, rest) = v.fresh p (leb→le s.next p h) in absurd (ne unmade)
    | inr h ↦ ground arith
  ]

  first_stage_making : (o : Option ℕ) → is_making (first_stage o) ≡ true
  first_stage_making none = refl
  first_stage_making (some w) = refl

  is_making-live : (t : Stage) → is_making t ≡ true → is_live t ≡ true
  is_making-live loading h = refl
  is_making-live (waiting w) h = refl
  is_making-live missing h = refl
  is_making-live failed h = refl
  is_making-live opened h = refl
  is_making-live unborn h = cc
  is_making-live flushing h = cc
  is_making-live destroyed h = cc

  abbrev pub make_room : ℕ → Str → Rooms → Rooms
  make_room conn d s = await_room conn_doc conn d none s

  -- The new room and the others.
  made :
      (conn : ℕ) (d : Str) (s : Rooms) (p : ℕ)
      → ((p ≡ s.next)
          × ((make_room conn d s).doc_of p ≡ d)
          × ((make_room conn d s).stage p ≡ first_stage (s.pending_writes d))
          × ((make_room conn d s).conns p ≡ []))
        ⊎ ((p ≢ s.next)
            × ((make_room conn d s).doc_of p ≡ s.doc_of p)
            × ((make_room conn d s).stage p ≡ s.stage p)
            × ((make_room conn d s).conns p ≡ s.conns p))
  made conn d s p = elim (Bool-cases (p == s.next)) [
    | inl e ↦ inl (ground arith, rw e refl, rw e refl, rw e refl)
    | inr e ↦ inr ((λ same. ground arith), rw e refl, rw e refl, rw e refl)
  ]

  pub make_room-Sound :
      (conn : ℕ) (d : Str) (s : Rooms) → s.rooms d ≡ none → Sound s → Sound (make_room conn d s)
  make_room-Sound conn d s free v = record {
    fresh = λ p le. unmade p le (made conn d s p);
    mapped = λ e p h. in_map e p (mapped_cases e p h) (made conn d s p);
    held = λ p c h. kept p c h (made conn d s p);
    making = λ p h. still_making p h (made conn d s p);
    writing = λ p h. still_writing p h (made conn d s p);
    written = λ e w h. still_written e w h (made conn d s w);
    blocked = λ e p w h k. still_blocked e p w k (mapped_cases e p h) (made conn d s p);
    leaver = λ c p h. still_there c p (v.leaver c p h) (made conn d s p);
  }
    where
      t : Rooms
      t = make_room conn d s

      Made : ℕ → Type 0
      Made p =
          ((p ≡ s.next)
            × (t.doc_of p ≡ d)
            × (t.stage p ≡ first_stage (s.pending_writes d))
            × (t.conns p ≡ []))
          ⊎ ((p ≢ s.next)
              × (t.doc_of p ≡ s.doc_of p)
              × (t.stage p ≡ s.stage p)
              × (t.conns p ≡ s.conns p))

      InMap : Str → ℕ → Type 0
      InMap e p = ((e ≡ d) × (s.next ≡ p)) ⊎ ((e ≢ d) × (s.rooms e ≡ some p))

      mapped_cases : (e : Str) (p : ℕ) → t.rooms e ≡ some p → InMap e p
      mapped_cases e p h = elim (put_doc_cases s.rooms d (some s.next) e) [
        | inl (same, new) ↦ inl (same, cc (sym new ∙ h))
        | inr (other, old) ↦ inr (other, sym old ∙ h)
      ]

      other_doc : (p : ℕ) → s.rooms (s.doc_of p) ≡ some p → s.doc_of p ≢ d
      other_doc p h same = cc (ap s.rooms same)

      stays :
          (p : ℕ)
          → s.rooms (s.doc_of p) ≡ some p
          → t.doc_of p ≡ s.doc_of p
          → t.rooms (t.doc_of p) ≡ some p
      stays p h doc = elim (put_doc_cases s.rooms d (some s.next) (s.doc_of p)) [
        | inl (same, new) ↦ absurd (other_doc p h same)
        | inr (other, old) ↦ ap t.rooms doc ∙ old ∙ h
      ]

      unmade : (p : ℕ) → t.next ≤ p → Made p → (t.stage p ≡ unborn) × (t.conns p ≡ [])
      unmade p le (inl (same, doc_, stage_, conns_)) = absurd (omega arith)
      unmade p le (inr (other, doc, stage, conns)) =
          let (unborn_before, empty) = v.fresh p (omega arith) in
          (stage ∙ unborn_before, conns ∙ empty)

      in_map :
          (e : Str) (p : ℕ) → InMap e p → Made p → (t.doc_of p ≡ e) × (is_live (t.stage p) ≡ true)
      in_map e p (inl (same, number)) (inl (q, doc, stage, conns)) = (
        doc ∙ sym same,
        ap is_live stage
            ∙ is_making-live (first_stage (s.pending_writes d))
                (first_stage_making (s.pending_writes d)),
      )
      in_map e p (inl (same, number)) (inr (q, doc_, stage_, conns_)) = absurd (q (sym number))
      in_map e p (inr (other, h)) (inl (q, doc_, stage_, conns_)) =
          let (doc, live) = v.mapped e p h in
          let (unborn_before, empty) = v.fresh p (omega arith) in
          absurd (cc (ap is_live unborn_before))
      in_map e p (inr (other, h)) (inr (q, doc, stage, conns)) =
          let (doc', live) = v.mapped e p h in (doc ∙ doc', ap is_live stage ∙ live)

      kept :
          (p c : ℕ)
          → holds c (t.conns p) ≡ true
          → Made p
          → (t.stage p ≡ opened) × (conn_doc c ≡ t.doc_of p) × (t.rooms (t.doc_of p) ≡ some p)
      kept p c h (inl (q, doc, stage, conns)) = absurd (cc (rw conns at h))
      kept p c h (inr (q, doc, stage, conns)) =
          let (open_before, doc', mapped) = v.held p c (ap (holds c) (sym conns) ∙ h) in
          (stage ∙ open_before, doc' ∙ sym doc, stays p mapped doc)

      still_making : (p : ℕ) → is_making (t.stage p) ≡ true → Made p → t.rooms (t.doc_of p) ≡ some p
      still_making p h (inl (q, doc, stage, conns)) =
          ap t.rooms doc ∙ elim (put_doc_cases s.rooms d (some s.next) d) [
            | inl (same, new) ↦ new ∙ ap some (sym q)
            | inr (other, old) ↦ absurd (other refl)
          ]
      still_making p h (inr (q, doc, stage, conns)) =
          stays p (v.making p (ap is_making (sym stage) ∙ h)) doc

      still_writing :
          (p : ℕ) → t.stage p ≡ flushing → Made p → t.pending_writes (t.doc_of p) ≡ some p
      still_writing p h (inl (q, doc, stage, conns)) =
          absurd (cc (sym (first_stage_making (s.pending_writes d)) ∙ ap is_making (sym stage ∙ h)))
      still_writing p h (inr (q, doc, stage, conns)) =
          ap s.pending_writes doc ∙ v.writing p (sym stage ∙ h)

      still_written :
          (e : Str) (w : ℕ)
          → s.pending_writes e ≡ some w
          → Made w
          → (t.stage w ≡ flushing) × (t.doc_of w ≡ e)
      still_written e w h (inl (q, doc_, stage_, conns_)) =
          let (flush, doc) = v.written e w h in
          let (unborn_before, empty) = v.fresh w (omega arith) in
          absurd (cc (sym flush ∙ unborn_before))
      still_written e w h (inr (q, doc, stage, conns)) =
          let (flush, doc') = v.written e w h in (stage ∙ flush, doc ∙ doc')

      still_blocked :
          (e : Str) (p w : ℕ)
          → s.pending_writes e ≡ some w
          → InMap e p
          → Made p
          → t.stage p ≡ waiting w
      still_blocked e p w k (inl (same, number)) (inl (q, doc, stage, conns)) =
          stage ∙ ap first_stage (ap s.pending_writes (sym same) ∙ k)
      still_blocked e p w k (inl (same, number)) (inr (q, doc_, stage_, conns_)) =
          absurd (q (sym number))
      still_blocked e p w k (inr (other, h)) (inl (q, doc_, stage_, conns_)) =
          let (doc, live) = v.mapped e p h in
          let (unborn_before, empty) = v.fresh p (omega arith) in
          absurd (cc (ap is_live unborn_before))
      still_blocked e p w k (inr (other, h)) (inr (q, doc, stage, conns)) =
          stage ∙ v.blocked e p w h k

      still_there : (c p : ℕ) → holds c (s.conns p) ≡ true → Made p → holds c (t.conns p) ≡ true
      still_there c p h (inl (q, doc_, stage_, conns_)) =
          let (unborn_before, empty) = v.fresh p (omega arith) in absurd (cc (rw empty at h))
      still_there c p h (inr (q, doc, stage, conns)) = ap (holds c) conns ∙ h
