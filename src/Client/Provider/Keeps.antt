-- ===== src/Client/Provider/Keeps.antt =====
-- What every event keeps of a provider.
use collab_ide.Base.{
  ℕ, suc, ◌≡◌, ◌≢◌, inl, inr, refl, sym, ap, ◌∙◌, arith, Bool, true, false, not, ◌||◌, List, [],
  ◌∷◌, Option, none, some, Str, Bool-cases, is_some,
}
use collab_ide.Client.Reconnect.{is_terminal_close}
use collab_ide.Persistence.Yjs.{Bytes}
use collab_ide.Client.Provider.{
  SyncDoc, ClientMessage, sync_message, awareness_message, ServerMessage, sync_received,
  awareness_received, other_received, SocketState, no_socket, opening, open_, gone, remote, local,
  Provider, connect, detach, new_provider, destroy, local_synced, send, handle_doc_update,
  handle_awareness_update, handle_open, handle_online, handle_message, handle_close, retry_fired,
  is_open, set_ready, reply, detach, is_reconnecting, update_message,
}
use collab_ide.Client.Provider.Sockets.{
  Event, opened, online, fired, unmounted, received, closed_with, stored, doc_updated,
  awareness_updated, is_opening, is_alive, possible, handle, react, react_all, Same, send-Same,
  Tidy, Tidy-Same, reconnect-Tidy, Tidy-cases, Alive-Tidy,
}

module _ (y : SyncDoc) (sample : ℕ → ℕ) where
  opened-Tidy :
      (s : Provider y)
      → is_opening y sample s.socket ≡ true
      → Tidy y sample s
      → Tidy y sample (handle y sample opened s)
  unfolding handle_open handle_awareness_update
  opened-Tidy s p v = elim (Tidy-cases y sample s v) [
    | inl (d, e, timer, made) ↦ absurd (cc (ap (is_opening y sample) (sym e) ∙ p))
    | inr (inl (d, alive, timer, made, ne)) ↦
        let u : Provider y = record s { socket = open_ } in
        let asked = send y sample (sync_message (y.write_sync_step1 u.ydoc)) u in
        let present : Provider y = record asked { awareness = y.set_local_state asked.awareness } in
        let (one, status_one) = send-Same y sample (sync_message (y.write_sync_step1 u.ydoc)) u in
        let (two, status_two) =
          send-Same y sample (awareness_message (y.encode_awareness present.awareness)) present in
        Tidy-Same y sample present
          (send y sample (awareness_message (y.encode_awareness present.awareness)) present) two
          status_two
          (Tidy-Same y sample u present one status_one
            (Alive-Tidy y sample u (d, refl, timer, made, ne)))
    | inr (inr (d, e, made, rest)) ↦ absurd (cc (ap (is_opening y sample) (sym e) ∙ p))
  ]

  received-Tidy :
      (m : ServerMessage) (s : Provider y)
      → is_open y sample s.socket ≡ true
      → Tidy y sample s
      → Tidy y sample (handle_message y sample m s)
  unfolding handle_message
  received-Tidy (awareness_received bytes) s p v = v
  received-Tidy other_received s p v = v
  received-Tidy (sync_received bytes) s p v = elim (Tidy-cases y sample s v) [
    | inl (d, e, timer, made) ↦ absurd (cc (ap (is_open y sample) (sym e) ∙ p))
    | inr (inr (d, e, made, rest)) ↦ absurd (cc (ap (is_open y sample) (sym e) ∙ p))
    | inr (inl (d, alive, timer, made, ne)) ↦
        let result = y.read_sync_message bytes s.ydoc in
        let u : Provider y = record s { ydoc = result.0 } in
        let w = reply y sample result.1 u in
        let (socket, retry, destroyed, made', detached) = reply-same result.1 u in
        let (socket', retry', destroyed', made'', detached') = set_ready-same w in
        Alive-Tidy y sample (handle_message y sample (sync_received bytes) s) (
          destroyed' ∙ destroyed ∙ d,
          ap (is_alive y sample) (socket' ∙ socket) ∙ alive,
          retry' ∙ retry ∙ timer,
          made'' ∙ made' ∙ made ∙ ap suc (sym (detached' ∙ detached)),
          λ e. cc,
        )
  ]
    where
      reply-same : (o : Option Bytes) (u : Provider y) → Same y sample u (reply y sample o u)
      reply-same none u = (refl, refl, refl, refl, refl)
      reply-same (some bytes) u =
          let (same, status) = send-Same y sample (sync_message bytes) u in same

      set_ready-same : (u : Provider y) → Same y sample u (set_ready y sample u)
      set_ready-same u = elim (Bool-cases (u.ready || u.destroyed)) [
        | inl e ↦ simp e (refl, refl, refl, refl, refl)
        | inr e ↦ simp e (refl, refl, refl, refl, refl)
      ]

  closed-Tidy :
      (code : ℕ) (reason : Str) (s : Provider y)
      → is_alive y sample s.socket ≡ true
      → Tidy y sample s
      → Tidy y sample (handle_close y sample code reason s)
  unfolding handle_close
  closed-Tidy code reason s p v = elim (Tidy-cases y sample s v) [
    | inl (d, e, timer, made) ↦ absurd (cc (ap (is_alive y sample) (sym e) ∙ p))
    | inr (inr (d, e, made, rest)) ↦ absurd (cc (ap (is_alive y sample) (sym e) ∙ p))
    | inr (inl (d, alive, timer, made, ne)) ↦ elim (Bool-cases (is_terminal_close code)) [
      | inl t ↦ simp (d, t) (made, inl (refl, timer))
      | inr t ↦ simp (d, t) (made, inr (refl, refl))
    ]
  ]

  fired-Tidy :
      (s : Provider y)
      → is_some s.retry ≡ true
      → Tidy y sample s
      → Tidy y sample (retry_fired y sample s)
  unfolding retry_fired
  fired-Tidy s p v = elim (Tidy-cases y sample s v) [
    | inl (d, e, timer, made) ↦ absurd (cc (ap is_some (sym timer) ∙ p))
    | inr (inl (d, alive, timer, made, ne)) ↦ absurd (cc (ap is_some (sym timer) ∙ p))
    | inr (inr (d, e, made, inl (status, timer))) ↦ absurd (cc (ap is_some (sym timer) ∙ p))
    | inr (inr (d, e, made, inr (status, timer))) ↦
        reconnect-Tidy y sample s d (λ bad. cc (sym status ∙ bad)) v
  ]

  online-Tidy : (s : Provider y) → Tidy y sample s → Tidy y sample (handle_online y sample s)
  unfolding handle_online
  online-Tidy s v = elim (Bool-cases (s.destroyed || not (is_reconnecting y sample s.status))) [
    | inl e ↦ simp e v
    | inr e ↦ simp e (
        reconnect-Tidy y sample s (ground arith)
          (λ bad. absurd (
            cc (
              ap (λ k. s.destroyed || not (is_reconnecting y sample k)) (sym bad) ∙ e,
              both s.destroyed,
            )))
          v)
  ]
    where
      both : (b : Bool) → (b || true) ≡ true
      both true = refl
      both false = refl

  destroy-Tidy : (s : Provider y) → Tidy y sample s → Tidy y sample (destroy y sample s)
  unfolding destroy
  destroy-Tidy s v = elim (Tidy-cases y sample s v) [
    | inl (d, e, timer, made) ↦ simp d (e, timer, made)
    | inr (inl (d, alive, timer, made, ne)) ↦
        simp d (drop_socket s.socket refl (held_one alive) made)
    | inr (inr (d, e, made, rest)) ↦ simp d (drop_socket s.socket refl (λ n. cc (sym e ∙ n)) made)
  ]
    where
      held_one : is_alive y sample s.socket ≡ true → s.socket ≢ no_socket
      held_one alive n = cc (ap (is_alive y sample) (sym n) ∙ alive)

      drop_socket :
          (k : SocketState)
          → s.socket ≡ k
          → s.socket ≢ no_socket
          → s.made ≡ suc s.detached
          → Tidy y sample (detach y sample k (record s { destroyed = true; retry = none }))
      drop_socket no_socket e ne made = absurd (ne e)
      drop_socket opening e ne made = (refl, refl, made)
      drop_socket open_ e ne made = (refl, refl, made)
      drop_socket gone e ne made = (refl, refl, made)

  sent-Tidy :
      (m : ClientMessage) (s : Provider y) → Tidy y sample s → Tidy y sample (send y sample m s)
  sent-Tidy m s v =
      let (same, status) = send-Same y sample m s in
      Tidy-Same y sample s (send y sample m s) same status v

  handle-Tidy :
      (e : Event) (s : Provider y)
      → possible y sample e s ≡ true
      → Tidy y sample s
      → Tidy y sample (handle y sample e s)
  unfolding handle_doc_update handle_awareness_update local_synced
  handle-Tidy opened s p v = opened-Tidy s p v
  handle-Tidy (received m) s p v = received-Tidy m s p v
  handle-Tidy (closed_with code reason) s p v = closed-Tidy code reason s p v
  handle-Tidy fired s p v = fired-Tidy s p v
  handle-Tidy online s p v = online-Tidy s v
  handle-Tidy (doc_updated update remote) s p v = v
  handle-Tidy (doc_updated update local) s p v = sent-Tidy (update_message update) s v
  handle-Tidy (awareness_updated remote) s p v = v
  handle-Tidy (awareness_updated local) s p v =
      sent-Tidy (awareness_message (y.encode_awareness s.awareness)) s v
  handle-Tidy (stored false) s p v = v
  handle-Tidy (stored true) s p v = elim (Bool-cases (s.ready || s.destroyed)) [
    | inl e ↦ simp e v
    | inr e ↦ simp e v
  ]
  handle-Tidy unmounted s p v = destroy-Tidy s v

  pub react_all-Tidy :
      (s : Provider y) (es : List Event) → Tidy y sample s → Tidy y sample (react_all y sample s es)
  react_all-Tidy s [] v = v
  react_all-Tidy s (e ∷ es) v =
      react_all-Tidy (react y sample s e) es (elim (Bool-cases (possible y sample e s)) [
        | inl p ↦ simp p (handle-Tidy e s p v)
        | inr p ↦ simp p v
      ])

  pub new_provider-Tidy :
      (ydoc : y.Doc) (awareness : y.Awareness)
      → Tidy y sample (new_provider y sample ydoc awareness)
  unfolding new_provider connect
  new_provider-Tidy ydoc awareness = (refl, refl, λ e. cc)
