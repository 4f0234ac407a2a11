-- ===== src/Client/Provider/Sockets.antt =====
-- The sockets of a provider over any events: one at a time, and none once it is destroyed.
use collab_ide.Base.{
  ℕ, suc, ◌≡◌, ◌≢◌, ◌⊎◌, inl, inr, refl, ap, subst, ◌∙◌, arith, Bool, true, false, not, ◌||◌, List,
  [], ◌∷◌, Option, none, Str, if◌then◌else◌, Bool-cases, is_some,
}
use collab_ide.Persistence.Yjs.{Bytes}
use collab_ide.Client.Provider.{
  CollabStatus, reconnecting, closed, SyncDoc, ClientMessage, ServerMessage, SocketState, no_socket,
  opening, open_, gone, Origin, Provider, connect, detach, detach_socket, destroy, local_synced,
  send, handle_doc_update, handle_awareness_update, handle_open, handle_online, handle_message,
  handle_close, retry_fired, is_open,
}

pub data Event : Type 0 where
  opened online fired unmounted : Event
  received : ServerMessage → Event
  closed_with : ℕ → Str → Event
  stored : Bool → Event
  doc_updated : Bytes → Origin → Event
  awareness_updated : Origin → Event

module _ (y : SyncDoc) (sample : ℕ → ℕ) where
  abbrev pub is_opening : SocketState → Bool
  is_opening opening = true
  is_opening open_ = false
  is_opening gone = false
  is_opening no_socket = false

  abbrev pub is_alive : SocketState → Bool
  is_alive opening = true
  is_alive open_ = true
  is_alive gone = false
  is_alive no_socket = false

  -- What the browser can deliver: events of the socket by its state, the timer when it is set, and
  -- nothing to listeners that have been removed.
  abbrev pub possible : Event → Provider y → Bool
  possible opened s = is_opening s.socket
  possible (received m) s = is_open y sample s.socket
  possible (closed_with code reason) s = is_alive s.socket
  possible fired s = is_some s.retry
  possible online s = not s.destroyed
  possible (doc_updated update origin) s = not s.destroyed
  possible (awareness_updated origin) s = not s.destroyed
  possible (stored restored) s = true
  possible unmounted s = true

  -- A socket that opens is open before its handler runs.
  abbrev pub handle : Event → Provider y → Provider y
  handle opened s = handle_open y sample (record s { socket = open_ })
  handle (received m) s = handle_message y sample m s
  handle (closed_with code reason) s = handle_close y sample code reason s
  handle fired s = retry_fired y sample s
  handle online s = handle_online y sample s
  handle (doc_updated update origin) s = handle_doc_update y sample update origin s
  handle (awareness_updated origin) s = handle_awareness_update y sample origin s
  handle (stored restored) s = local_synced y sample restored s
  handle unmounted s = destroy y sample s

  abbrev pub react : Provider y → Event → Provider y
  react s e = if possible e s then handle e s else s

  abbrev pub react_all : Provider y → List Event → Provider y
  react_all s [] = s
  react_all s (e ∷ es) = react_all (react s e) es

  abbrev pub held : SocketState → ℕ
  held no_socket = 0
  held opening = 1
  held open_ = 1
  held gone = 1

  -- The part of the state that decides about sockets.
  abbrev pub Same : Provider y → Provider y → Type 0
  Same s t =
      (t.socket ≡ s.socket)
      × (t.retry ≡ s.retry)
      × (t.destroyed ≡ s.destroyed)
      × (t.made ≡ s.made)
      × (t.detached ≡ s.detached)

  pub send-Same :
      (m : ClientMessage) (s : Provider y)
      → Same s (send y sample m s) × ((send y sample m s).status ≡ s.status)
  send-Same m s = elim (Bool-cases (s.destroyed || not (is_open y sample s.socket))) [
    | inl e ↦ simp e ((refl, refl, refl, refl, refl), refl)
    | inr e ↦ simp e ((refl, refl, refl, refl, refl), refl)
  ]

  -- A destroyed provider has closed every socket that it made. Another one holds the last socket that
  -- it made: a socket that lives has no timer beside it; one that is gone has a timer, or was closed
  -- for good.
  abbrev pub TidyOf : Bool → SocketState → Option ℕ → ℕ → ℕ → CollabStatus → Type 0
  TidyOf true socket retry made detached status =
      (socket ≡ no_socket) × (retry ≡ none) × (made ≡ detached)
  TidyOf false no_socket retry made detached status = ⊥
  TidyOf false opening retry made detached status =
      (retry ≡ none) × (made ≡ suc detached) × (status ≢ closed)
  TidyOf false open_ retry made detached status =
      (retry ≡ none) × (made ≡ suc detached) × (status ≢ closed)
  TidyOf false gone retry made detached status =
      (made ≡ suc detached)
      × (((status ≡ closed) × (retry ≡ none)) ⊎ ((status ≡ reconnecting) × (is_some retry ≡ true)))

  abbrev pub Tidy : Provider y → Type 0
  Tidy s = TidyOf s.destroyed s.socket s.retry s.made s.detached s.status

  pub Tidy-Same : (s t : Provider y) → Same s t → t.status ≡ s.status → Tidy s → Tidy t
  Tidy-Same s t (socket, retry, destroyed, made, detached) status v =
      rw (socket, retry, destroyed, made, detached, status) v

  pub connect-Tidy :
      (s : Provider y)
      → s.destroyed ≡ false
      → s.retry ≡ none
      → s.made ≡ s.detached
      → s.status ≢ closed
      → Tidy (connect y sample s)
  unfolding connect
  connect-Tidy s live timer made status = simp live (timer, omega arith, status)

  abbrev closed_one : Provider y → Provider y
  closed_one s = record s { retry = none; socket = no_socket; detached = suc s.detached }

  pub reconnect-Tidy :
      (s : Provider y)
      → s.destroyed ≡ false
      → s.status ≢ closed
      → Tidy s
      → Tidy (connect y sample (detach_socket y sample (record s { retry = none })))
  reconnect-Tidy s live status v =
      go s.socket refl (subst (λ d. TidyOf d s.socket s.retry s.made s.detached s.status) live v)
    where
      go :
          (k : SocketState)
          → s.socket ≡ k
          → TidyOf false k s.retry s.made s.detached s.status
          → Tidy (connect y sample (detach y sample s.socket (record s { retry = none })))
      go no_socket e v = absurd v
      go opening e (timer, made, ne) = simp e (connect-Tidy (closed_one s) live refl made status)
      go open_ e (timer, made, ne) = simp e (connect-Tidy (closed_one s) live refl made status)
      go gone e (made, rest) = simp e (connect-Tidy (closed_one s) live refl made status)

  abbrev pub Alive : Provider y → Type 0
  Alive s =
      (s.destroyed ≡ false)
      × (is_alive s.socket ≡ true)
      × (s.retry ≡ none)
      × (s.made ≡ suc s.detached)
      × (s.status ≢ closed)

  abbrev pub Gone : Provider y → Type 0
  Gone s =
      (s.destroyed ≡ false)
      × (s.socket ≡ gone)
      × (s.made ≡ suc s.detached)
      × (((s.status ≡ closed) × (s.retry ≡ none))
          ⊎ ((s.status ≡ reconnecting) × (is_some s.retry ≡ true)))

  abbrev pub Over : Provider y → Type 0
  Over s = (s.destroyed ≡ true) × (s.socket ≡ no_socket) × (s.retry ≡ none) × (s.made ≡ s.detached)

  pub Tidy-cases : (s : Provider y) → Tidy s → Over s ⊎ Alive s ⊎ Gone s
  Tidy-cases s v = go s.destroyed s.socket refl refl v
    where
      go :
          (d : Bool) (k : SocketState)
          → s.destroyed ≡ d
          → s.socket ≡ k
          → TidyOf d k s.retry s.made s.detached s.status
          → Over s ⊎ Alive s ⊎ Gone s
      go true k d e (socket, timer, made) = inl (d, e ∙ socket, timer, made)
      go false no_socket d e v = absurd v
      go false opening d e (timer, made, ne) = inr (inl (d, ap is_alive e, timer, made, ne))
      go false open_ d e (timer, made, ne) = inr (inl (d, ap is_alive e, timer, made, ne))
      go false gone d e (made, rest) = inr (inr (d, e, made, rest))

  pub Alive-Tidy : (s : Provider y) → Alive s → Tidy s
  Alive-Tidy s (d, alive, timer, made, ne) = go s.socket refl alive
    where
      go : (k : SocketState) → s.socket ≡ k → is_alive k ≡ true → Tidy s
      go opening e h = simp (d, e) (timer, made, ne)
      go open_ e h = simp (d, e) (timer, made, ne)
      go gone e h = cc
      go no_socket e h = cc
