-- ===== src/Collab/Rooms/Keeps.antt =====
-- The steps that make a room and load it.
use collab_ide.Base.{
  ℕ, ◌≡◌, inl, inr, refl, ap, sym, ◌∙◌, Bool, true, false, Option, none, some, Str, if◌then◌else◌,
  Option-cases,
}
use collab_ide.Collab.Rooms.{
  Stage, loading, missing, failed, opened, destroyed, waiting, put, Rooms, await_room, join_room,
  load_room, room_created, creation_failed,
}
use collab_ide.Collab.Rooms.Maps.{is_live, is_making, put_cases}
use collab_ide.Collab.Rooms.Sound.{Sound, make_room-Sound}

module _ (conn_doc : ℕ → Str) where
  -- A room that is made comes to another live stage, when no write of its document is pending.
  restage-Sound :
      (p : ℕ) (st : Stage) (s : Rooms)
      → is_making (s.stage p) ≡ true
      → is_live st ≡ true
      → s.pending_writes (s.doc_of p) ≡ none
      → Sound conn_doc s
      → Sound conn_doc (record s { stage = put s.stage p st })
  restage-Sound p st s making live quiet v = record {
    fresh = λ q le. elim (put_cases s.stage p st q) [
      | inl (same, new) ↦
          let (unmade, empty) = v.fresh q le in
          absurd (cc (ap is_making (sym unmade ∙ ap s.stage same) ∙ making))
      | inr (other, old) ↦ let (unmade, empty) = v.fresh q le in (old ∙ unmade, empty)
    ];
    mapped = λ d q h.
        let (doc, was) = v.mapped d q h in
        elim (put_cases s.stage p st q) [
          | inl (same, new) ↦ (doc, ap is_live new ∙ live)
          | inr (other, old) ↦ (doc, ap is_live old ∙ was)
        ];
    held = λ q c h.
        let (was, doc, mapped) = v.held q c h in
        elim (put_cases s.stage p st q) [
          | inl (same, new) ↦ absurd (cc (ap is_making (sym was ∙ ap s.stage same) ∙ making))
          | inr (other, old) ↦ (old ∙ was, doc, mapped)
        ];
    making = λ q h. elim (put_cases s.stage p st q) [
      | inl (same, new) ↦ v.making q (ap (λ r. is_making (s.stage r)) same ∙ making)
      | inr (other, old) ↦ v.making q (ap is_making (sym old) ∙ h)
    ];
    writing = λ q h. elim (put_cases s.stage p st q) [
      | inl (same, new) ↦ absurd (cc (ap is_live (sym h ∙ new) ∙ live))
      | inr (other, old) ↦ v.writing q (sym old ∙ h)
    ];
    written = λ d w h.
        let (was, doc) = v.written d w h in
        elim (put_cases s.stage p st w) [
          | inl (same, new) ↦ absurd (cc (ap is_making (sym was ∙ ap s.stage same) ∙ making))
          | inr (other, old) ↦ (old ∙ was, doc)
        ];
    blocked = λ d q w h k. elim (put_cases s.stage p st q) [
      | inl (same, new) ↦
          let (doc, was) = v.mapped d q h in
          let there =
            ap (λ r. s.pending_writes (s.doc_of r)) (sym same) ∙ ap s.pending_writes doc ∙ k in
          absurd (cc (sym quiet ∙ there))
      | inr (other, old) ↦ old ∙ v.blocked d q w h k
    ];
    leaver = λ c q h. v.leaver c q h;
  }

  pub load_room-Sound :
      (p w : ℕ) (s : Rooms)
      → s.stage p ≡ waiting w
      → s.stage w ≡ destroyed
      → Sound conn_doc s
      → Sound conn_doc (load_room conn_doc p s)
  load_room-Sound p w s waits done v =
      let making : is_making (s.stage p) ≡ true = ap is_making waits in
      let mapped = v.making p making in
      restage-Sound p loading s making refl
        (elim (Option-cases (s.pending_writes (s.doc_of p))) [
          | inl e ↦ e
          | inr (u, e) ↦
              let stuck = v.blocked (s.doc_of p) p u mapped e in
              let (flush, doc) = v.written (s.doc_of p) u e in
              let same : w ≡ u = cc (sym waits ∙ stuck) in
              absurd (cc (sym flush ∙ ap s.stage (sym same) ∙ done))
        ])
        v

  -- No write of a document is pending while the room in the map is read or open.
  pub loading-quiet :
      (p : ℕ) (s : Rooms)
      → s.stage p ≡ loading
      → Sound conn_doc s
      → s.pending_writes (s.doc_of p) ≡ none
  loading-quiet p s load v = elim (Option-cases (s.pending_writes (s.doc_of p))) [
    | inl e ↦ e
    | inr (u, e) ↦
        let mapped = v.making p (ap is_making load) in
        absurd (cc (sym load ∙ v.blocked (s.doc_of p) p u mapped e))
  ]

  pub room_created-Sound :
      (p : ℕ) (exists : Bool) (s : Rooms)
      → s.stage p ≡ loading
      → Sound conn_doc s
      → Sound conn_doc (room_created conn_doc p exists s)
  room_created-Sound p exists s load v =
      restage-Sound p (if exists then opened else missing) s (ap is_making load) (either exists)
        (loading-quiet p s load v) v
    where
      either : (b : Bool) → is_live (if b then opened else missing) ≡ true
      either true = refl
      either false = refl

  pub creation_failed-Sound :
      (p : ℕ) (s : Rooms)
      → s.stage p ≡ loading
      → Sound conn_doc s
      → Sound conn_doc (creation_failed conn_doc p s)
  creation_failed-Sound p s load v =
      restage-Sound p failed s (ap is_making load) refl (loading-quiet p s load v) v

  pub join_room-Sound :
      (conn : ℕ) (s : Rooms) → Sound conn_doc s → Sound conn_doc (join_room conn_doc conn s)
  unfolding join_room
  join_room-Sound conn s v = go (s.rooms (conn_doc conn)) refl
    where
      go :
          (o : Option ℕ)
          → s.rooms (conn_doc conn) ≡ o
          → Sound conn_doc (await_room conn_doc conn (conn_doc conn) o s)
      go none e = make_room-Sound conn_doc conn (conn_doc conn) s e v
      go (some p) e = record {
        fresh = v.fresh;
        mapped = v.mapped;
        held = v.held;
        making = v.making;
        writing = v.writing;
        written = v.written;
        blocked = v.blocked;
        leaver = v.leaver;
      }
