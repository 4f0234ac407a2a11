-- ===== src/Examples/Client.antt =====
-- A provider whose socket is lost and made again, one that is refused, and some tabs.
use collab_ide.Base.{ℕ, ◌+◌, ◌≡◌, ◌≢◌, ◌⊎◌, refl, true, false, List, [], ◌∷◌, none, some, is_some}
use collab_ide.Client.Provider.{
  Provider, SyncDoc, closed, no_socket, new_provider, connect, handle_close, sync_received,
}
use collab_ide.Client.Provider.Sockets.{
  Event, online, fired, received, closed_with, react_all, held, is_alive,
}
use collab_ide.Client.Provider.Closed.{one_socket, closed_for_good}
use collab_ide.Client.Tabs.{no_files}
use collab_ide.Client.Tabs.Distinct.{Ordered, Op, closed_file, perform_all, perform_all-Ordered}

-- A document that is the list of the bytes it was sent.
abbrev doc : SyncDoc
doc = record {
  Doc = List ℕ;
  Awareness = List ℕ;
  write_sync_step1 = λ d. d;
  read_sync_message = λ bytes d. (bytes, some d);
  set_local_state = λ a. 1 ∷ [];
  encode_awareness = λ a. a;
  apply_awareness = λ bytes a. bytes;
}

abbrev half : ℕ → ℕ
half n = 250

abbrev lost : List Event
lost =
    Event.opened
    ∷ received (sync_received (5 ∷ []))
    ∷ closed_with 1006 []
    ∷ fired
    ∷ Event.opened
    ∷ []

abbrev fresh : Provider doc
fresh = new_provider doc half [] []

one_socket_example :
    ((react_all doc half fresh lost).made
      ≡ (react_all doc half fresh lost).detached
        + held doc half (react_all doc half fresh lost).socket)
    × ((react_all doc half fresh lost).destroyed ≡ true
        → ((react_all doc half fresh lost).socket ≡ no_socket)
          × ((react_all doc half fresh lost).retry ≡ none))
    × ((react_all doc half fresh lost).destroyed ≡ false
        → (react_all doc half fresh lost).status ≢ closed
        → (is_alive doc half (react_all doc half fresh lost).socket ≡ true)
          ⊎ (is_some (react_all doc half fresh lost).retry ≡ true))
one_socket_example = one_socket doc half [] [] lost

abbrev refused : List Event
refused = closed_with 4409 [] ∷ []

abbrev after : List Event
after = online ∷ fired ∷ Event.opened ∷ []

refused_lem : (react_all doc half fresh refused).status ≡ closed
unfolding new_provider connect handle_close
refused_lem = refl

closed_for_good_example :
    (react_all doc half (react_all doc half fresh refused) after).made
    ≡ (react_all doc half fresh refused).made
closed_for_good_example = closed_for_good doc half [] [] refused after refused_lem

abbrev clicks : List Op
clicks =
    Op.opened (b'1' ∷ []) (b'a' ∷ [])
    ∷ Op.opened (b'2' ∷ []) (b'b' ∷ [])
    ∷ closed_file (b'2' ∷ [])
    ∷ []

perform_all-Ordered_example : Ordered (perform_all no_files clicks)
perform_all-Ordered_example = perform_all-Ordered clicks
