-- ===== src/Collab/Rooms/Leaves.antt =====
-- The steps by which a connection leaves its room, and the end of a room.
use collab_ide.Base.{
  ℕ, ◌≡◌, ◌≢◌, inl, inr, refl, ap, sym, ◌∙◌, arith, Bool, true, not, List, [], ◌∷◌, Option, none,
  some, Str, ◌==◌, Bool-cases, ◌&&◌,
}
use collab_ide.Collab.Rooms.{
  opened, flushing, destroyed, put, put_doc, Rooms, leave_room, await_leave, without_conn, evict,
  remove_conn, room_left, write_ended,
}
use collab_ide.Collab.Rooms.Maps.{
  is_live, is_making, holds, put_cases, put_doc_cases, delete_current_cases, delete_current_other,
  holds-without_conn,
}
use collab_ide.Collab.Rooms.Sound.{Sound}

module _ (conn_doc : ℕ → Str) where
  -- A connection of a room asks to leave it.
  pub leave_room-Sound :
      (conn q : ℕ) (s : Rooms)
      → holds conn (s.conns q) ≡ true
      → Sound conn_doc s
      → Sound conn_doc (leave_room conn_doc conn s)
  unfolding leave_room
  leave_room-Sound conn q s member v = go (s.rooms (conn_doc conn)) refl
    where
      go :
          (o : Option ℕ)
          → s.rooms (conn_doc conn) ≡ o
          → Sound conn_doc (await_leave conn_doc conn o s)
      go none e = v
      go (some p) e = record {
        fresh = v.fresh;
        mapped = v.mapped;
        held = v.held;
        making = v.making;
        writing = v.writing;
        written = v.written;
        blocked = v.blocked;
        leaver = λ c r h. elim (put_cases s.leaving conn (some p) c) [
          | inl (same, new) ↦
              let (open_, doc, mapped) = v.held q conn member in
              let here : some q ≡ some p = sym mapped ∙ ap s.rooms (sym doc) ∙ e in
              let room : some p ≡ some r = sym new ∙ h in
              let which : q ≡ r = cc in
              ap (holds c) (ap s.conns (sym which)) ∙ ap (λ x. holds x (s.conns q)) same ∙ member
          | inr (other, old) ↦ v.leaver c r (sym old ∙ h)
        ];
      }

  remove_conn-Sound :
      (conn p : ℕ) (s : Rooms) → Sound conn_doc s → Sound conn_doc (remove_conn conn_doc conn p s)
  remove_conn-Sound conn p s v = record {
    fresh = λ q le. elim (put_cases s.conns p (without_conn conn (s.conns p)) q) [
      | inl (same, new) ↦
          let (unmade, empty) = v.fresh q le in
          (unmade, new ∙ ap (without_conn conn) (ap s.conns (sym same) ∙ empty))
      | inr (other, old) ↦ let (unmade, empty) = v.fresh q le in (unmade, old ∙ empty)
    ];
    mapped = v.mapped;
    held = λ q c h. elim (put_cases s.conns p (without_conn conn (s.conns p)) q) [
      | inl (same, new) ↦
          let still = sym (holds-without_conn c conn (s.conns p)) ∙ ap (holds c) (sym new) ∙ h in
          v.held q c (
            ap (λ r. holds c (s.conns r)) same
            ∙ second (not (c == conn)) (holds c (s.conns p)) still)
      | inr (other, old) ↦ v.held q c (ap (holds c) (sym old) ∙ h)
    ];
    making = v.making;
    writing = v.writing;
    written = v.written;
    blocked = v.blocked;
    leaver = λ c q h. elim (put_cases s.leaving conn none c) [
      | inl (same, new) ↦ absurd (cc (sym new ∙ h))
      | inr (distinct, kept) ↦
          let member = v.leaver c q (sym kept ∙ h) in
          elim (put_cases s.conns p (without_conn conn (s.conns p)) q) [
            | inl (same, new) ↦
                ap (holds c) new
                ∙ holds-without_conn c conn (s.conns p)
                ∙ both c distinct (ap (λ r. holds c (s.conns r)) (sym same) ∙ member)
            | inr (other, old) ↦ ap (holds c) old ∙ member
          ]
    ];
  }
    where
      second : (a b : Bool) → (a && b) ≡ true → b ≡ true
      second a b h = ground arith

      both :
          (c : ℕ)
          → c ≢ conn
          → holds c (s.conns p) ≡ true
          → (not (c == conn) && holds c (s.conns p)) ≡ true
      both c distinct member = elim (Bool-cases (c == conn)) [
        | inl e ↦ absurd (distinct (ground arith))
        | inr e ↦ rw (e, member) refl
      ]

  -- The last connection has left an open room that is in the map.
  evict-Sound :
      (conn p : ℕ) (s : Rooms)
      → s.rooms (conn_doc conn) ≡ some p
      → s.doc_of p ≡ conn_doc conn
      → s.stage p ≡ opened
      → s.conns p ≡ []
      → Sound conn_doc s
      → Sound conn_doc (evict conn_doc conn p [] s)
  evict-Sound conn p s mapped doc live empty v = record {
    fresh = λ q le.
        let (unmade, none_held) = v.fresh q le in
        elim (put_cases s.stage p flushing q) [
          | inl (same, new) ↦ absurd (cc (sym unmade ∙ ap s.stage same ∙ live))
          | inr (other, old) ↦ (old ∙ unmade, none_held)
        ];
    mapped = λ d q h.
        let (was, other) = delete_current_cases (conn_doc conn) p s.rooms d q h in
        let (doc', alive) = v.mapped d q was in
        elim (put_cases s.stage p flushing q) [
          | inl (same, new) ↦ absurd (other (sym doc' ∙ ap s.doc_of same ∙ doc) same)
          | inr (distinct, old) ↦ (doc', ap is_live old ∙ alive)
        ];
    held = λ q c h.
        let (open_, doc', there) = v.held q c h in
        elim (put_cases s.stage p flushing q) [
          | inl (same, new) ↦ absurd (cc (ap (holds c) (ap s.conns same ∙ empty)))
          | inr (distinct, old) ↦ (
            old ∙ open_,
            doc',
            delete_current_other (conn_doc conn) p s.rooms (s.doc_of q) q there (λ d. distinct),
          )
        ];
    making = λ q h. elim (put_cases s.stage p flushing q) [
      | inl (same, new) ↦ absurd (cc (ap is_making (sym new) ∙ h))
      | inr (distinct, old) ↦
          delete_current_other (conn_doc conn) p s.rooms (s.doc_of q) q
            (v.making q (ap is_making (sym old) ∙ h)) (λ d. distinct)
    ];
    writing = λ q h. elim (put_cases s.stage p flushing q) [
      | inl (same, new) ↦
          ap (put_doc s.pending_writes (conn_doc conn) (some p)) (ap s.doc_of same ∙ doc)
          ∙ put_doc_same
          ∙ ap some (sym same)
      | inr (distinct, old) ↦
          let pending = v.writing q (sym old ∙ h) in
          elim (put_doc_cases s.pending_writes (conn_doc conn) (some p) (s.doc_of q)) [
            | inl (same, new) ↦ absurd (
                cc (
                  sym live
                  ∙ v.blocked (conn_doc conn) p q mapped
                      (ap s.pending_writes (sym same) ∙ pending)))
            | inr (other, kept) ↦ kept ∙ pending
          ]
    ];
    written = λ d w h. elim (put_doc_cases s.pending_writes (conn_doc conn) (some p) d) [
      | inl (same, new) ↦
          let which : p ≡ w = cc (sym new ∙ h) in
          (flushes w which, ap s.doc_of (sym which) ∙ doc ∙ sym same)
      | inr (other, kept) ↦
          let (flush, doc') = v.written d w (sym kept ∙ h) in
          elim (put_cases s.stage p flushing w) [
            | inl (same, new) ↦ absurd (cc (sym live ∙ ap s.stage (sym same) ∙ flush))
            | inr (distinct, old) ↦ (old ∙ flush, doc')
          ]
    ];
    blocked = λ d q w h k.
        let (was, other) = delete_current_cases (conn_doc conn) p s.rooms d q h in
        let (doc', alive) = v.mapped d q was in
        elim (put_cases s.stage p flushing q) [
          | inl (same, new) ↦ absurd (other (sym doc' ∙ ap s.doc_of same ∙ doc) same)
          | inr (distinct, old) ↦ elim (put_doc_cases s.pending_writes (conn_doc conn) (some p) d) [
            | inl (here, new) ↦ absurd (other here (cc (sym was ∙ ap s.rooms here ∙ mapped)))
            | inr (away, kept) ↦ old ∙ v.blocked d q w was (sym kept ∙ k)
          ]
        ];
    leaver = v.leaver;
  }
    where
      put_doc_same : put_doc s.pending_writes (conn_doc conn) (some p) (conn_doc conn) ≡ some p
      put_doc_same =
          elim (put_doc_cases s.pending_writes (conn_doc conn) (some p) (conn_doc conn)) [
            | inl (same, new) ↦ new
            | inr (other, kept) ↦ absurd (other refl)
          ]

      flushes : (w : ℕ) → p ≡ w → put s.stage p flushing w ≡ flushing
      flushes w e = elim (put_cases s.stage p flushing w) [
        | inl (same, new) ↦ new
        | inr (distinct, old) ↦ absurd (distinct (sym e))
      ]

  pub room_left-Sound :
      (conn p : ℕ) (s : Rooms)
      → s.leaving conn ≡ some p
      → Sound conn_doc s
      → Sound conn_doc (room_left conn_doc conn p opened s)
  unfolding room_left
  room_left-Sound conn p s leaves v =
      let member = v.leaver conn p leaves in
      let (live, doc, mapped) = v.held p conn member in
      let smaller = remove_conn-Sound conn p s v in
      go (without_conn conn (s.conns p)) (same_conns refl) (ap s.rooms doc ∙ mapped) (sym doc) live
        smaller
    where
      same_conns :
          without_conn conn (s.conns p) ≡ without_conn conn (s.conns p)
          → (remove_conn conn_doc conn p s).conns p ≡ without_conn conn (s.conns p)
      same_conns e = elim (put_cases s.conns p (without_conn conn (s.conns p)) p) [
        | inl (same, new) ↦ new
        | inr (other, old) ↦ absurd (other refl)
      ]

      go :
          (rest : List ℕ)
          → (remove_conn conn_doc conn p s).conns p ≡ rest
          → s.rooms (conn_doc conn) ≡ some p
          → s.doc_of p ≡ conn_doc conn
          → s.stage p ≡ opened
          → Sound conn_doc (remove_conn conn_doc conn p s)
          → Sound conn_doc (evict conn_doc conn p rest (remove_conn conn_doc conn p s))
      go (c ∷ rest) e mapped doc live smaller = smaller
      go [] e mapped doc live smaller =
          evict-Sound conn p (remove_conn conn_doc conn p s) mapped doc live e smaller

  pub write_ended-Sound :
      (p : ℕ) (s : Rooms)
      → s.stage p ≡ flushing
      → Sound conn_doc s
      → Sound conn_doc (write_ended conn_doc p s)
  unfolding write_ended
  write_ended-Sound p s flush v = record {
    fresh = λ q le.
        let (unmade, empty) = v.fresh q le in
        elim (put_cases s.stage p destroyed q) [
          | inl (same, new) ↦ absurd (cc (sym unmade ∙ ap s.stage same ∙ flush))
          | inr (other, old) ↦ (old ∙ unmade, empty)
        ];
    mapped = λ d q h.
        let (doc, alive) = v.mapped d q h in
        elim (put_cases s.stage p destroyed q) [
          | inl (same, new) ↦ absurd (cc (ap is_live (sym (ap s.stage same ∙ flush)) ∙ alive))
          | inr (other, old) ↦ (doc, ap is_live old ∙ alive)
        ];
    held = λ q c h.
        let (open_, doc, there) = v.held q c h in
        elim (put_cases s.stage p destroyed q) [
          | inl (same, new) ↦ absurd (cc (sym open_ ∙ ap s.stage same ∙ flush))
          | inr (other, old) ↦ (old ∙ open_, doc, there)
        ];
    making = λ q h. elim (put_cases s.stage p destroyed q) [
      | inl (same, new) ↦ absurd (cc (ap is_making (sym new) ∙ h))
      | inr (other, old) ↦ v.making q (ap is_making (sym old) ∙ h)
    ];
    writing = λ q h. elim (put_cases s.stage p destroyed q) [
      | inl (same, new) ↦ absurd (cc (sym new ∙ h))
      | inr (other, old) ↦
          delete_current_other (s.doc_of p) p s.pending_writes (s.doc_of q) q
            (v.writing q (sym old ∙ h)) (λ d. other)
    ];
    written = λ d w h.
        let (was, kept) = delete_current_cases (s.doc_of p) p s.pending_writes d w h in
        let (flush', doc) = v.written d w was in
        elim (put_cases s.stage p destroyed w) [
          | inl (same, new) ↦ absurd (kept (sym doc ∙ ap s.doc_of same) same)
          | inr (other, old) ↦ (old ∙ flush', doc)
        ];
    blocked = λ d q w h k.
        let (was, kept) = delete_current_cases (s.doc_of p) p s.pending_writes d w k in
        let waits = v.blocked d q w h was in
        elim (put_cases s.stage p destroyed q) [
          | inl (same, new) ↦ absurd (cc (sym waits ∙ ap s.stage same ∙ flush))
          | inr (other, old) ↦ old ∙ waits
        ];
    leaver = v.leaver;
  }
