-- ===== src/Examples/Bus.antt =====
-- Two instances on the document bus, with an encoding that ends a text by 0.
use collab_ide.Base.{
  ℕ, zero, suc, ◌≡◌, refl, ap, false, List, [], ◌∷◌, ◌++◌, Option, none, some, Str, is_some,
  if◌then◌else◌, ◌===◌,
}
use collab_ide.Collab.Messages.{DocFrame, sync_frame}
use collab_ide.Redis.Frames.{Lib0, encode_frame}
use collab_ide.Redis.Bus.{get, no_bus, on_message, doc_channel}
use collab_ide.Redis.Bus.Handlers.{listening}
use collab_ide.Redis.Bus.Subscriptions.{
  Op, subscribed, unsubscribed, published, promised, perform_all,
}
use collab_ide.Redis.Bus.Refines.{perform_all_refines, on_message-publish_doc, with_frame}

abbrev write_text : List ℕ → List ℕ
write_text [] = 0 ∷ []
write_text (c ∷ s) = suc c ∷ write_text s

abbrev put_first : ℕ → Option (List ℕ × List ℕ) → Option (List ℕ × List ℕ)
put_first c none = none
put_first c (some (s, rest)) = some (c ∷ s, rest)

abbrev read_text : List ℕ → Option (List ℕ × List ℕ)
read_text [] = none
read_text (zero ∷ rest) = some ([], rest)
read_text (suc c ∷ rest) = put_first c (read_text rest)

read_text-write_text : (s rest : List ℕ) → read_text (write_text s ++ rest) ≡ some (s, rest)
read_text-write_text [] rest = refl
read_text-write_text (c ∷ s) rest = ap (put_first c) (read_text-write_text s rest)

abbrev read_number : List ℕ → Option (ℕ × List ℕ)
read_number [] = none
read_number (n ∷ rest) = some (n, rest)

abbrev lib0 : Lib0
lib0 = record {
  write_var_string = write_text;
  read_var_string = read_text;
  write_var_uint = λ n. n ∷ [];
  read_var_uint = read_number;
  write_var_bytes = write_text;
  read_var_bytes = read_text;
  string_read = read_text-write_text;
  uint_read = λ n rest. refl;
  bytes_read = read_text-write_text;
}

abbrev frame : DocFrame
frame = sync_frame (7 ∷ 0 ∷ 9 ∷ [])

abbrev one : Str
one = b'1' ∷ []

abbrev two : Str
two = b'2' ∷ []

abbrev ops : List (Op ℕ)
ops =
    subscribed one 10
    ∷ subscribed two 20
    ∷ published one frame
    ∷ unsubscribed two
    ∷ subscribed one 11
    ∷ []

perform_all_refines_example :
    (get (perform_all lib0 two no_bus ops).handlers (doc_channel one)
      ≡ promised (λ c. none) ops (doc_channel one))
    × (listening (doc_channel one) false (perform_all lib0 two no_bus ops).calls
        ≡ is_some (promised (λ c. none) ops (doc_channel one)))
perform_all_refines_example = perform_all_refines lib0 two ops (doc_channel one)

on_message-publish_doc_example :
    on_message lib0 two
      (doc_channel one)
      (encode_frame lib0 one frame)
      (perform_all lib0 two no_bus ops)
    ≡ (if one === two
        then none
        else with_frame lib0 two frame (promised (λ c. none) ops (doc_channel one)))
on_message-publish_doc_example = on_message-publish_doc lib0 two one one frame ops
