-- ===== src/Redis/Bus/Subscriptions.antt =====
-- What the document bus promises: a map from documents to handlers, which Redis follows.
use collab_ide.Base.{
  ◌≡◌, ◌∙◌, refl, sym, ap, subst, inl, inr, Bool, true, false, not, ◌&&◌, ◌||◌, List, [], ◌∷◌, ◌++◌,
  Option, none, some, Str, ◌===◌, ===_sound, if◌then◌else◌, is_some, Bool-cases, Option-cases,
}
use collab_ide.Collab.Messages.{DocFrame}
use collab_ide.Redis.Frames.{Lib0}
use collab_ide.Redis.Bus.{
  RedisCall, connect_subscriber, subscribe, unsubscribe, doc_channel, get, has, set, delete, Bus,
  call, get_subscriber, subscribe_doc, unsubscribe_doc, publish_doc, close_doc_bus,
}
use collab_ide.Redis.Bus.Handlers.{listening, listening-append, has-get, get-set, get-delete}

-- The operations on the bus.
pub data Op (H : Type 0) : Type 0 where
  subscribed : Str → H → Op H
  unsubscribed : Str → Op H
  published : Str → DocFrame → Op H
  bus_closed : Op H

module _ {H : Type 0} where
  -- The abstract bus: a document has at most one handler, the last one that was given.
  abbrev pub updated : (Str → Option H) → Op H → Str → Option H
  updated handler (subscribed d h) channel =
      if doc_channel d === channel then some h else handler channel
  updated handler (unsubscribed d) channel =
      if doc_channel d === channel then none else handler channel
  updated handler (published d frame) channel = handler channel
  updated handler bus_closed channel = none

  abbrev pub promised : (Str → Option H) → List (Op H) → Str → Option H
  promised handler [] = handler
  promised handler (o ∷ os) = promised (updated handler o) os

  module _ (l : Lib0) (instance_id : Str) where
    abbrev pub perform : Bus H → Op H → Bus H
    perform b (subscribed d h) = subscribe_doc l instance_id d h b
    perform b (unsubscribed d) = unsubscribe_doc l instance_id d b
    perform b (published d frame) = publish_doc l instance_id d frame b
    perform b bus_closed = close_doc_bus l instance_id b

    abbrev pub perform_all : Bus H → List (Op H) → Bus H
    perform_all b [] = b
    perform_all b (o ∷ os) = perform_all (perform b o) os

    -- The bus stands for a map: its handlers are that map, Redis delivers just its channels, and a bus
    -- without a subscriber has no handlers.
    abbrev pub Implements : (Str → Option H) → Bus H → Type 0
    Implements handler b =
        ((channel : Str) → get b.handlers channel ≡ handler channel)
        × ((channel : Str) → listening channel false b.calls ≡ is_some (handler channel))
        × (b.subscriber ≡ false → b.handlers ≡ [])

    connected :
        (b : Bus H)
        → (cs : List RedisCall) × (get_subscriber l instance_id b
            ≡ record b { subscriber = true; calls = cs })
          × ((channel : Str) → listening channel false cs ≡ listening channel false b.calls)
    connected b = elim (Bool-cases b.subscriber) [
      | inl e ↦
          (b.calls, ap (λ v. if v then b else opened) e ∙ ap (λ v. the_bus v) e, λ channel. refl)
      | inr e ↦ (
        b.calls ++ connect_subscriber ∷ [],
        ap (λ v. if v then b else opened) e,
        λ channel. listening-append channel false b.calls connect_subscriber,
      )
    ]
      where
        opened : Bus H
        opened = call l instance_id connect_subscriber (record b { subscriber = true })

        the_bus : Bool → Bus H
        the_bus v = record b { subscriber = v }

    pub subscribe_doc-Implements :
        (handler : Str → Option H) (d : Str) (h : H) (b : Bus H)
        → Implements handler b
        → Implements (updated handler (subscribed d h)) (subscribe_doc l instance_id d h b)
    unfolding subscribe_doc
    subscribe_doc-Implements handler d h b (handlers, heard, none_before) =
        elim (Bool-cases (has b.handlers (doc_channel d))) [
          | inl known ↦
              let same : subscribe_doc l instance_id d h b
                  ≡ record b { handlers = set b.handlers (doc_channel d) h } =
                simp known refl in
              subst (Implements (updated handler (subscribed d h))) (sym same) (
                λ channel. rw (get-set b.handlers (doc_channel d) h channel, handlers channel) refl,
                λ channel. heard channel ∙ known_some known channel,
                λ off. absurd (cc (ap (λ m. has m (doc_channel d)) (none_before off))),
              )
          | inr new ↦
              let (cs, opened, quiet) =
                connected (record b { handlers = set b.handlers (doc_channel d) h }) in
              let same : subscribe_doc l instance_id d h b ≡ record b {
                handlers = set b.handlers (doc_channel d) h;
                subscriber = true;
                calls = cs ++ subscribe (doc_channel d) ∷ [];
              } =
                simp new refl ∙ ap (call l instance_id (subscribe (doc_channel d))) opened in
              subst (Implements (updated handler (subscribed d h))) (sym same) (
                λ channel. rw (get-set b.handlers (doc_channel d) h channel, handlers channel) refl,
                λ channel.
                    rw
                      (
                        listening-append channel false cs (subscribe (doc_channel d)),
                        quiet channel,
                        heard channel,
                      )
                      (now_some channel),
                λ off. cc,
              )
        ]
      where
        known_some :
            has b.handlers (doc_channel d) ≡ true
            → (channel : Str)
            → is_some (handler channel)
              ≡ is_some (if doc_channel d === channel then some h else handler channel)
        known_some known channel = elim (Bool-cases (doc_channel d === channel)) [
          | inl e ↦
              let same = ===_sound (doc_channel d) channel e in
              let there : is_some (handler channel) ≡ true =
                ap is_some (sym (handlers channel))
                ∙ sym (has-get b.handlers channel)
                ∙ ap (has b.handlers) (sym same)
                ∙ known in
              rw (e, is_some) there
          | inr e ↦ rw e refl
        ]

        now_some :
            (channel : Str)
            → ((doc_channel d === channel) || is_some (handler channel))
              ≡ is_some (if doc_channel d === channel then some h else handler channel)
        now_some channel = elim (Bool-cases (doc_channel d === channel)) [
          | inl e ↦ rw e refl
          | inr e ↦ rw e refl
        ]

    pub unsubscribe_doc-Implements :
        (handler : Str → Option H) (d : Str) (b : Bus H)
        → Implements handler b
        → Implements (updated handler (unsubscribed d)) (unsubscribe_doc l instance_id d b)
    unfolding unsubscribe_doc
    unsubscribe_doc-Implements handler d b (handlers, heard, none_before) =
        elim (Bool-cases b.subscriber) [
          | inr off ↦
              let same : unsubscribe_doc l instance_id d b ≡ b = simp off refl in
              subst (Implements (updated handler (unsubscribed d))) (sym same)
                (unknown (ap (λ m. has m (doc_channel d)) (none_before off)))
          | inl on ↦ elim (Bool-cases (has b.handlers (doc_channel d))) [
            | inr new ↦
                let same : unsubscribe_doc l instance_id d b ≡ b = simp (on, new) refl in
                subst (Implements (updated handler (unsubscribed d))) (sym same) (unknown new)
            | inl known ↦
                let same : unsubscribe_doc l instance_id d b ≡ record b {
                  handlers = delete b.handlers (doc_channel d);
                  calls = b.calls ++ unsubscribe (doc_channel d) ∷ [];
                } =
                  simp (on, known) refl in
                subst (Implements (updated handler (unsubscribed d))) (sym same) (
                  λ channel.
                      rw (get-delete b.handlers (doc_channel d) channel, handlers channel) refl,
                  λ channel.
                      rw
                        (
                          listening-append channel false b.calls (unsubscribe (doc_channel d)),
                          heard channel,
                        )
                        (now_none channel),
                  λ off. absurd (cc),
                )
          ]
        ]
      where
        not_there :
            has b.handlers (doc_channel d) ≡ false
            → (channel : Str)
            → handler channel ≡ (if doc_channel d === channel then none else handler channel)
        not_there new channel = elim (Bool-cases (doc_channel d === channel)) [
          | inl e ↦
              let same = ===_sound (doc_channel d) channel e in
              let gone : is_some (handler channel) ≡ false =
                ap is_some (sym (handlers channel))
                ∙ sym (has-get b.handlers channel)
                ∙ ap (has b.handlers) (sym same)
                ∙ new in
              elim (Option-cases (handler channel)) [
                | inl n ↦ rw (e, n) refl
                | inr (h, n) ↦ cc (rw n at gone)
              ]
          | inr e ↦ rw e refl
        ]

        unknown :
            has b.handlers (doc_channel d) ≡ false → Implements (updated handler (unsubscribed d)) b
        unknown new = (
          λ channel. handlers channel ∙ not_there new channel,
          λ channel. heard channel ∙ ap is_some (not_there new channel),
          none_before,
        )

        now_none :
            (channel : Str)
            → (not (doc_channel d === channel) && is_some (handler channel))
              ≡ is_some (if doc_channel d === channel then none else handler channel)
        now_none channel = elim (Bool-cases (doc_channel d === channel)) [
          | inl e ↦ rw e refl
          | inr e ↦ rw e refl
        ]
