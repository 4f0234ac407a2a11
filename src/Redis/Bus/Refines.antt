-- ===== src/Redis/Bus/Refines.antt =====
-- The document bus implements the map that it promises, whatever the operations.
use collab_ide.Base.{
  ◌≡◌, ◌∙◌, refl, sym, ap, subst, inl, inr, Bool, true, false, List, [], ◌∷◌, ◌++◌, Option, none,
  some, Str, ◌===◌, if◌then◌else◌, is_some, Bool-cases,
}
use collab_ide.Collab.Messages.{DocFrame}
use collab_ide.Redis.Frames.{Lib0, encode_frame, decode_frame-encode_frame}
use collab_ide.Redis.Bus.{
  RedisCall, connect_publisher, quit_publisher, quit_subscriber, publish, doc_channel, get, Bus,
  no_bus, call, publish_doc, quit, close_doc_bus, hand_over, on_message,
}
use collab_ide.Redis.Bus.Handlers.{listening, listening-append}
use collab_ide.Redis.Bus.Subscriptions.{
  Op, subscribed, unsubscribed, published, bus_closed, updated, promised, perform, perform_all,
  Implements, subscribe_doc-Implements, unsubscribe_doc-Implements,
}

module _ {H : Type 0} (l : Lib0) (instance_id : Str) where
  publish_doc-Implements :
      (handler : Str → Option H) (d : Str) (frame : DocFrame) (b : Bus H)
      → Implements l instance_id handler b
      → Implements l instance_id handler (publish_doc l instance_id d frame b)
  unfolding publish_doc
  publish_doc-Implements handler d frame b (handlers, heard, none_before) =
      let bytes = encode_frame l instance_id frame in
      let c = publish (doc_channel d) bytes in
      elim (Bool-cases b.publisher) [
        | inl e ↦
            let same : publish_doc l instance_id d frame b ≡ call l instance_id c b = simp e refl in
            subst (Implements l instance_id handler) (sym same) (
              handlers,
              λ channel. listening-append channel false b.calls c ∙ heard channel,
              none_before,
            )
        | inr e ↦
            let opened = b.calls ++ connect_publisher ∷ [] in
            let same : publish_doc l instance_id d frame b
                ≡ record b { publisher = true; calls = opened ++ c ∷ [] } =
              simp e refl in
            subst (Implements l instance_id handler) (sym same) (
              handlers,
              λ channel.
                  listening-append channel false opened c
                  ∙ listening-append channel false b.calls connect_publisher
                  ∙ heard channel,
              none_before,
            )
      ]

  close_doc_bus-Implements :
      (handler : Str → Option H) (b : Bus H)
      → Implements l instance_id handler b
      → Implements l instance_id (λ channel. none) (close_doc_bus l instance_id b)
  unfolding close_doc_bus
  close_doc_bus-Implements handler b (handlers, heard, none_before) =
      elim (Bool-cases b.subscriber) [
        | inl on ↦
            let after : List RedisCall = quit_calls b.publisher in
            let same : close_doc_bus l instance_id b
                ≡ record no_bus { calls = after ++ quit_subscriber ∷ [] } =
              simp on (quit_same b.publisher) in
            subst (Implements l instance_id (λ channel. none)) (sym same) (
              λ channel. refl,
              λ channel. listening-append channel false after quit_subscriber,
              λ off. refl,
            )
        | inr off ↦
            let same : close_doc_bus l instance_id b
                ≡ record no_bus { calls = quit_calls b.publisher } =
              simp off (quit_alone b.publisher) in
            subst (Implements l instance_id (λ channel. none)) (sym same) (
              λ channel. refl,
              λ channel. still_silent channel (none_before off) b.publisher,
              λ off. refl,
            )
      ]
    where
      quit_calls : Bool → List RedisCall
      quit_calls true = b.calls ++ quit_publisher ∷ []
      quit_calls false = b.calls

      quit_same :
          (v : Bool)
          → call l instance_id quit_subscriber (
              quit l instance_id v quit_publisher
                (record b { handlers = []; publisher = false; subscriber = false }))
            ≡ record no_bus { calls = quit_calls v ++ quit_subscriber ∷ [] }
      quit_same true = refl
      quit_same false = refl

      quit_alone :
          (v : Bool)
          → quit l instance_id v quit_publisher
              (record b { handlers = []; publisher = false; subscriber = false })
            ≡ record no_bus { calls = quit_calls v }
      quit_alone true = refl
      quit_alone false = refl

      silent : (channel : Str) → b.handlers ≡ [] → listening channel false b.calls ≡ false
      silent channel e =
          heard channel ∙ ap is_some (sym (handlers channel) ∙ ap (λ m. get m channel) e)

      still_silent :
          (channel : Str)
          → b.handlers ≡ []
          → (v : Bool) → listening channel false (quit_calls v) ≡ false
      still_silent channel e true =
          listening-append channel false b.calls quit_publisher ∙ silent channel e
      still_silent channel e false = silent channel e

  perform-Implements :
      (handler : Str → Option H) (b : Bus H) (o : Op H)
      → Implements l instance_id handler b
      → Implements l instance_id (updated handler o) (perform l instance_id b o)
  perform-Implements handler b (subscribed d h) v =
      subscribe_doc-Implements l instance_id handler d h b v
  perform-Implements handler b (unsubscribed d) v =
      unsubscribe_doc-Implements l instance_id handler d b v
  perform-Implements handler b (published d frame) v = publish_doc-Implements handler d frame b v
  perform-Implements handler b bus_closed v = close_doc_bus-Implements handler b v

  perform_all-Implements :
      (handler : Str → Option H) (b : Bus H) (os : List (Op H))
      → Implements l instance_id handler b
      → Implements l instance_id (promised handler os) (perform_all l instance_id b os)
  perform_all-Implements handler b [] v = v
  perform_all-Implements handler b (o ∷ os) v =
      perform_all-Implements (updated handler o) (perform l instance_id b o) os
        (perform-Implements handler b o v)

  -- After any operations, the handlers are those that the operations promise, and Redis delivers to
  -- the instance just the channels that have a handler, when it carries out the calls made.
  pub perform_all_refines :
      (os : List (Op H)) (channel : Str)
      → (get (perform_all l instance_id no_bus os).handlers channel
          ≡ promised (λ c. none) os channel)
        × (listening channel false (perform_all l instance_id no_bus os).calls
            ≡ is_some (promised (λ c. none) os channel))
  perform_all_refines os channel =
      let (handlers, heard, none_before) =
        perform_all-Implements (λ c. none) no_bus os (λ c. refl, λ c. refl, λ off. refl) in
      (handlers channel, heard channel)

  abbrev pub with_frame : DocFrame → Option H → Option (H × DocFrame)
  with_frame frame none = none
  with_frame frame (some h) = some (h, frame)

  -- A frame that an instance publishes is given, at an instance with another id, to the last handler
  -- that was given for the document there, if it has not been removed; at the instance itself it is
  -- dropped.
  pub on_message-publish_doc :
      (sender d : Str) (frame : DocFrame) (os : List (Op H))
      → on_message l instance_id
          (doc_channel d)
          (encode_frame l sender frame)
          (perform_all l instance_id no_bus os)
        ≡ (if sender === instance_id
            then none
            else with_frame frame (promised (λ c. none) os (doc_channel d)))
  unfolding on_message
  on_message-publish_doc sender d frame os =
      let (handler, heard) = perform_all_refines os (doc_channel d) in
      rw (decode_frame-encode_frame l sender frame, handler)
        (given (promised (λ c. none) os (doc_channel d)))
    where
      given :
          (o : Option H)
          → hand_over l instance_id (some (record { instance_id = sender; frame = frame })) o
            ≡ (if sender === instance_id then none else with_frame frame o)
      given none = elim (Bool-cases (sender === instance_id)) [
        | inl e ↦ rw e refl
        | inr e ↦ rw e refl
      ]
      given (some h) = elim (Bool-cases (sender === instance_id)) [
        | inl e ↦ rw e refl
        | inr e ↦ rw e refl
      ]
