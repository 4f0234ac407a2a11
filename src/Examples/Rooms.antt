-- ===== src/Examples/Rooms.antt =====
-- Two connections in one room, and a document that is opened while another one is written.
use collab_ide.Base.{ℕ, ◌≡◌, ◌≢◌, refl, inl, true, [], ◌∷◌, some, Str, ◌===◌}
use collab_ide.Collab.Rooms.{
  Rooms, no_rooms, opened, loading, flushing, join_room, room_created, room_joined, leave_room,
  room_left,
}
use collab_ide.Collab.Rooms.Maps.{holds}
use collab_ide.Collab.Rooms.Steps.{
  Reach, here, next, joins, creates, joined, leaves, left, one_room, no_write_on_the_way,
}

abbrev one_doc : ℕ → Str
one_doc c = b'd' ∷ []

abbrev made : Rooms
made = room_created one_doc 0 true (join_room one_doc 1 no_rooms)

abbrev first_in : Rooms
first_in = room_joined one_doc 1 0 (made.stage 0) made

abbrev asked : Rooms
asked = join_room one_doc 2 first_in

abbrev both_in : Rooms
both_in = room_joined one_doc 2 0 (asked.stage 0) asked

both_in-Reach : Reach one_doc no_rooms both_in
unfolding join_room room_joined ◌===◌
both_in-Reach =
    next
      (next (next (next (next here (joins 1)) (creates 0 true refl)) (joined 1 0 refl refl))
        (joins 2))
      (joined 2 0 refl refl)

one_in : holds 1 (both_in.conns 0) ≡ true
unfolding join_room room_joined ◌===◌
one_in = refl

two_in : holds 2 (both_in.conns 0) ≡ true
unfolding join_room room_joined ◌===◌
two_in = refl

one_room_example :
    (◌≡◌ {A = ℕ} 0 0) × (both_in.stage 0 ≡ opened) × (both_in.rooms (one_doc 1) ≡ some 0)
one_room_example = one_room one_doc both_in 1 2 0 0 both_in-Reach one_in two_in refl

-- A connection to each document.
abbrev own_doc : ℕ → Str
own_doc c = c ∷ []

abbrev other_made : Rooms
other_made = room_created own_doc 0 true (join_room own_doc 1 no_rooms)

abbrev other_in : Rooms
other_in = room_joined own_doc 1 0 (other_made.stage 0) other_made

abbrev other_leaves : Rooms
other_leaves = leave_room own_doc 1 other_in

abbrev other_left : Rooms
other_left = room_left own_doc 1 0 (other_leaves.stage 0) other_leaves

abbrev writing : Rooms
writing = join_room own_doc 2 other_left

writing-Reach : Reach own_doc no_rooms writing
unfolding join_room room_joined leave_room room_left ◌===◌
writing-Reach =
    next
      (next
        (next (next (next (next here (joins 1)) (creates 0 true refl)) (joined 1 0 refl refl))
          (leaves 1 0 refl))
        (left 1 0 refl refl))
      (joins 2)

is_loading : writing.stage 1 ≡ loading
unfolding join_room room_joined leave_room room_left ◌===◌
is_loading = refl

is_flushing : writing.stage 0 ≡ flushing
unfolding join_room room_joined leave_room room_left ◌===◌
is_flushing = refl

no_write_on_the_way_example : writing.doc_of 0 ≢ writing.doc_of 1
no_write_on_the_way_example =
    no_write_on_the_way own_doc writing 1 0 writing-Reach (inl is_loading) is_flushing
