-- ===== src/Examples/Collab.antt =====
-- A room with a writer and a reader, over one-byte numbers.
use collab_ide.Base.{
  ℕ, ◌+◌, ◌≡◌, refl, true, false, Option, none, some, List, [], ◌∷◌, ◌==◌, if◌then◌else◌, arith,
}
use collab_ide.Persistence.Yjs.{Yjs, Bytes}
use collab_ide.Collab.Messages.{
  Protocol, SyncResult, replies, applies, sync_message, sync_frame, from_conn, Conn, Room,
  apply_update, handle_message,
}
use collab_ide.Collab.Messages.Fanout.{Step1Asks, apply_update-fanout, handle_message-read_only}

abbrev total : Bytes → ℕ
total [] = 0
total (b ∷ bs) = b + total bs

abbrev sums : Yjs
sums = record {
  Doc = ℕ;
  empty = 0;
  apply = λ d u. d + total u;
  encode = λ d. d ∷ [];
  merge = λ us. [];
}

abbrev first_byte : Bytes → Option (ℕ × Bytes)
first_byte [] = none
first_byte (b ∷ bs) = some (b, bs)

abbrev answer : Bytes → ℕ → Option SyncResult
answer [] d = none
answer (b ∷ bs) d = if b == 0 then some (replies (d ∷ [])) else some (applies bs)

abbrev bytewise : Protocol sums
bytewise = record {
  read_var_uint = first_byte;
  read_bytes = λ bs. some bs;
  message_sync_step1 = 0;
  read_sync_message = answer;
  update_event = λ d u. some u;
  Awareness = List ℕ;
  apply_awareness = λ a bs. some (bs, some (record { present = bs; removed = [] }));
  encode_awareness = λ a ids. ids;
}

bytewise-Step1Asks : Step1Asks sums bytewise
bytewise-Step1Asks [] d u h e = ground arith
bytewise-Step1Asks (b ∷ bs) d u h e = ground arith

abbrev writer : Conn
writer = record { id = 1; open_ = true; can_write = true; awareness_ids = [] }

abbrev reader : Conn
reader = record { id = 2; open_ = true; can_write = false; awareness_ids = [] }

abbrev room : Room sums bytewise
room = record {
  ydoc = 0;
  presence = [];
  conns = writer ∷ reader ∷ [];
  sent = [];
  published = [];
  closed = [];
}

apply_update-fanout_example :
    apply_update sums bytewise true (5 ∷ []) (from_conn 1) room ≡ record room {
      ydoc = 5;
      sent = (2, sync_message (5 ∷ [])) ∷ [];
      published = sync_frame (5 ∷ []) ∷ [];
    }
apply_update-fanout_example =
    apply_update-fanout sums bytewise true (5 ∷ []) (5 ∷ []) (from_conn 1) room refl

-- An update in a sync message of step 2.
handle_message-read_only_example :
    (handle_message sums bytewise true (0 ∷ 1 ∷ 5 ∷ []) reader room).ydoc ≡ 0
handle_message-read_only_example =
    handle_message-read_only sums bytewise true (0 ∷ 1 ∷ 5 ∷ []) reader room bytewise-Step1Asks refl
