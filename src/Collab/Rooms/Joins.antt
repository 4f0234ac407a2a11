-- ===== src/Collab/Rooms/Joins.antt =====
-- How a connection joins the room that it awaited.
use collab_ide.Base.{
  ℕ, ◌≡◌, ◌≢◌, inl, inr, refl, ap, sym, ◌∙◌, arith, true, [], ◌∷◌, ◌++◌, some, Str, ◌==◌,
  if◌then◌else◌, Bool-cases, Option-cases, ◌||◌,
}
use collab_ide.Collab.Rooms.{
  Stage, unborn, loading, missing, failed, opened, flushing, destroyed, waiting, Rooms, is_current,
  delete_current, join_room, add_conn, room_joined,
}
use collab_ide.Collab.Rooms.Maps.{
  is_live, is_making, is_settled, holds, put_cases, delete_current_cases, delete_current_other,
  holds-append, is_current_sound, live_settled,
}
use collab_ide.Collab.Rooms.Sound.{Sound}
use collab_ide.Collab.Rooms.Keeps.{join_room-Sound}

module _ (conn_doc : ℕ → Str) where
  -- A miss is not kept in the map.
  forget-Sound :
      (conn p : ℕ) (s : Rooms)
      → s.stage p ≡ missing
      → Sound conn_doc s
      → Sound conn_doc (room_joined conn_doc conn p missing s)
  unfolding room_joined
  forget-Sound conn p s miss v = record {
    fresh = v.fresh;
    mapped = λ d q h. (let (old, other) = gone d q h in v.mapped d q old);
    held = λ q c h.
        (let (open_, doc, mapped) = v.held q c h in
          (
            open_,
            doc,
            delete_current_other (conn_doc conn) p s.rooms (s.doc_of q) q mapped
                (λ d same. cc (sym open_ ∙ ap s.stage same ∙ miss)),
          ));
    making = λ q h.
        delete_current_other (conn_doc conn) p s.rooms (s.doc_of q) q (v.making q h)
          (λ d same. cc (ap is_making (sym (ap s.stage same ∙ miss)) ∙ h));
    writing = v.writing;
    written = v.written;
    blocked = λ d q w h k. (let (old, other) = gone d q h in v.blocked d q w old k);
    leaver = v.leaver;
  }
    where
      gone :
          (d : Str) (q : ℕ)
          → delete_current (conn_doc conn) p s.rooms d ≡ some q
          → (s.rooms d ≡ some q) × (d ≡ conn_doc conn → q ≢ p)
      gone d q h = delete_current_cases (conn_doc conn) p s.rooms d q h

  -- A room that could not be made stays in the map.
  give_up-Sound :
      (conn p : ℕ) (s : Rooms)
      → Sound conn_doc s
      → Sound conn_doc (room_joined conn_doc conn p failed s)
  unfolding room_joined
  give_up-Sound conn p s v = record {
    fresh = v.fresh;
    mapped = v.mapped;
    held = v.held;
    making = v.making;
    writing = v.writing;
    written = v.written;
    blocked = v.blocked;
    leaver = v.leaver;
  }

  add_conn-Sound :
      (conn p : ℕ) (s : Rooms)
      → s.rooms (conn_doc conn) ≡ some p
      → s.stage p ≡ opened
      → Sound conn_doc s
      → Sound conn_doc (add_conn conn_doc conn p s)
  add_conn-Sound conn p s mapped live v = record {
    fresh = λ q le. elim (put_cases s.conns p (s.conns p ++ conn ∷ []) q) [
      | inl (same, new) ↦
          let (unmade, empty) = v.fresh q le in absurd (cc (sym unmade ∙ ap s.stage same ∙ live))
      | inr (other, old) ↦ let (unmade, empty) = v.fresh q le in (unmade, old ∙ empty)
    ];
    mapped = v.mapped;
    held = λ q c h. elim (put_cases s.conns p (s.conns p ++ conn ∷ []) q) [
      | inl (same, new) ↦
          let (doc, was) = v.mapped (conn_doc conn) p mapped in
          joined q c same (sym (holds-append c conn (s.conns p)) ∙ ap (holds c) (sym new) ∙ h)
      | inr (other, old) ↦ v.held q c (ap (holds c) (sym old) ∙ h)
    ];
    making = v.making;
    writing = v.writing;
    written = v.written;
    blocked = v.blocked;
    leaver = λ c q h. elim (put_cases s.conns p (s.conns p ++ conn ∷ []) q) [
      | inl (same, new) ↦
          let was = ap (λ r. holds c (s.conns r)) (sym same) ∙ v.leaver c q h in
          ap (holds c) new ∙ holds-append c conn (s.conns p) ∙ ap (λ b. b || (conn == c)) was
      | inr (other, old) ↦ ap (holds c) old ∙ v.leaver c q h
    ];
  }
    where
      joined :
          (q c : ℕ)
          → q ≡ p
          → (holds c (s.conns p) || (conn == c)) ≡ true
          → (s.stage q ≡ opened) × (conn_doc c ≡ s.doc_of q) × (s.rooms (s.doc_of q) ≡ some q)
      joined q c same h = elim (Bool-cases (holds c (s.conns p))) [
        | inl was ↦ v.held q c (ap (λ r. holds c (s.conns r)) same ∙ was)
        | inr new ↦
            let (doc, live_) = v.mapped (conn_doc conn) p mapped in
            let who : conn ≡ c = ground arith in
            let doc' : s.doc_of q ≡ conn_doc conn = ap s.doc_of same ∙ doc in
            (
              ap s.stage same ∙ live,
              ap conn_doc (sym who) ∙ sym doc',
              ap s.rooms doc' ∙ mapped ∙ ap some (sym same),
            )
      ]

  -- A connection comes into the room that it awaited, asks again when that room is no longer the one
  -- in the map, or finds no file.
  pub room_joined-Sound :
      (conn p : ℕ) (s : Rooms)
      → is_settled (s.stage p) ≡ true
      → Sound conn_doc s
      → Sound conn_doc (room_joined conn_doc conn p (s.stage p) s)
  unfolding room_joined
  room_joined-Sound conn p s settled v = go (s.stage p) refl settled
    where
      current :
          (st : Stage)
          → s.stage p ≡ st
          → is_settled st ≡ true
          → st ≢ missing
          → st ≢ failed
          → Sound conn_doc (
              if is_current (s.rooms (conn_doc conn)) p
              then add_conn conn_doc conn p s
              else join_room conn_doc conn s)
      current st e h ne nf = elim (Bool-cases (is_current (s.rooms (conn_doc conn)) p)) [
        | inl now ↦ rw now (elim (Option-cases (s.rooms (conn_doc conn))) [
          | inl n ↦ absurd (cc (rw n at now))
          | inr (q, m) ↦
              let which = is_current_sound q p (rw m at now) in
              let mapped : s.rooms (conn_doc conn) ≡ some p = m ∙ ap some which in
              let (doc, live) = v.mapped (conn_doc conn) p mapped in
              add_conn-Sound conn p s mapped
                (e ∙ live_settled st h ne nf (ap is_live (sym e) ∙ live)) v
        ])
        | inr stale ↦ rw stale (join_room-Sound conn_doc conn s v)
      ]

      go :
          (st : Stage)
          → s.stage p ≡ st
          → is_settled st ≡ true
          → Sound conn_doc (room_joined conn_doc conn p st s)
      go missing e h = forget-Sound conn p s e v
      go failed e h = give_up-Sound conn p s v
      go opened e h = current opened e h (λ bad. cc) (λ bad. cc)
      go flushing e h = current flushing e h (λ bad. cc) (λ bad. cc)
      go destroyed e h = current destroyed e h (λ bad. cc) (λ bad. cc)
      go loading e h = cc
      go (waiting w) e h = cc
      go unborn e h = cc
