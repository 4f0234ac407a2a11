-- ===== src/Client/Provider/Closed.antt =====
-- The sockets of a provider after any events, and a provider that was closed for good.
use collab_ide.Base.{
  ℕ, suc, ◌+◌, ◌≡◌, ◌≢◌, ◌⊎◌, inl, inr, refl, sym, ap, ◌∙◌, arith, true, false, ◌||◌, List, [], ◌∷◌,
  none, Bool-cases, is_some,
}
use collab_ide.Client.Provider.{
  closed, SyncDoc, ClientMessage, awareness_message, SocketState, no_socket, opening, open_, gone,
  remote, local, Provider, detach, new_provider, destroy, local_synced, send, handle_doc_update,
  handle_awareness_update, handle_online, is_open, detach, update_message,
}
use collab_ide.Client.Provider.Sockets.{
  Event, opened, online, fired, unmounted, received, closed_with, stored, doc_updated,
  awareness_updated, is_opening, is_alive, possible, handle, react, react_all, held, Same,
  send-Same, Tidy, Tidy-cases,
}
use collab_ide.Client.Provider.Keeps.{react_all-Tidy, new_provider-Tidy}

module _ (y : SyncDoc) (sample : ℕ → ℕ) where
  -- After any events, every socket that was made but the current one has been closed by the provider;
  -- a provider that is destroyed has no socket and no timer; one that is neither destroyed nor closed
  -- for good has a socket that lives or a timer that will make one.
  pub one_socket :
      (ydoc : y.Doc) (awareness : y.Awareness) (es : List Event)
      → ((react_all y sample (new_provider y sample ydoc awareness) es).made
          ≡ (react_all y sample (new_provider y sample ydoc awareness) es).detached
            + held y sample (react_all y sample (new_provider y sample ydoc awareness) es).socket)
        × ((react_all y sample (new_provider y sample ydoc awareness) es).destroyed ≡ true
            → ((react_all y sample (new_provider y sample ydoc awareness) es).socket ≡ no_socket)
              × ((react_all y sample (new_provider y sample ydoc awareness) es).retry ≡ none))
        × ((react_all y sample (new_provider y sample ydoc awareness) es).destroyed ≡ false
            → (react_all y sample (new_provider y sample ydoc awareness) es).status ≢ closed
            → (is_alive y sample
                  (react_all y sample (new_provider y sample ydoc awareness) es).socket
                ≡ true)
              ⊎ (is_some (react_all y sample (new_provider y sample ydoc awareness) es).retry
                  ≡ true))
  one_socket ydoc awareness es =
      stated (react_all y sample (new_provider y sample ydoc awareness) es) (
        react_all-Tidy y sample (new_provider y sample ydoc awareness) es
          (new_provider-Tidy y sample ydoc awareness))
    where
      stated :
          (s : Provider y)
          → Tidy y sample s
          → (s.made ≡ s.detached + held y sample s.socket)
            × (s.destroyed ≡ true → (s.socket ≡ no_socket) × (s.retry ≡ none))
            × (s.destroyed ≡ false
                → s.status ≢ closed
                → (is_alive y sample s.socket ≡ true) ⊎ (is_some s.retry ≡ true))
      stated s v = elim (Tidy-cases y sample s v) [
        | inl (d, e, timer, made) ↦
            (rw e (omega arith), λ over. (e, timer), λ live. absurd (cc (sym d ∙ live)))
        | inr (inl (d, alive, timer, made, ne)) ↦
            (count s.socket alive made, λ over. absurd (cc (sym d ∙ over)), λ live ne'. inl alive)
        | inr (inr (d, e, made, inl (status, timer))) ↦ (
          rw e (omega arith),
          λ over. absurd (cc (sym d ∙ over)),
          λ live ne'. absurd (ne' status),
        )
        | inr (inr (d, e, made, inr (status, timer))) ↦
            (rw e (omega arith), λ over. absurd (cc (sym d ∙ over)), λ live ne'. inr timer)
      ]
        where
          count :
              (k : SocketState)
              → is_alive y sample k ≡ true
              → s.made ≡ suc s.detached
              → s.made ≡ s.detached + held y sample k
          count opening h made = omega arith
          count open_ h made = omega arith
          count gone h made = cc
          count no_socket h made = cc

  Quiet : Provider y → Type 0
  Quiet s = (s.status ≡ closed) × (s.retry ≡ none) × (is_alive y sample s.socket ≡ false)

  react-Quiet :
      (s : Provider y) (e : Event)
      → Quiet s
      → Quiet (react y sample s e) × ((react y sample s e).made ≡ s.made)
  unfolding Quiet handle_online handle_doc_update handle_awareness_update local_synced destroy
  react-Quiet s e (status, timer, dead) = elim (Bool-cases (possible y sample e s)) [
    | inr p ↦ simp p ((status, timer, dead), refl)
    | inl p ↦ simp p (go e p)
  ]
    where
      keeps :
          (t : Provider y) → Same y sample s t → t.status ≡ s.status → Quiet t × (t.made ≡ s.made)
      keeps t (socket, retry, destroyed, made, detached) same =
          ((same ∙ status, retry ∙ timer, ap (is_alive y sample) socket ∙ dead), made)

      sends : (m : ClientMessage) → Quiet (send y sample m s) × ((send y sample m s).made ≡ s.made)
      sends m = let (same, kept) = send-Same y sample m s in keeps (send y sample m s) same kept

      drops :
          (k : SocketState)
          → Quiet (detach y sample k (record s { destroyed = true; retry = none; socket = k }))
            × ((detach y sample k (record s { destroyed = true; retry = none; socket = k })).made
                ≡ s.made)
      drops no_socket = ((status, refl, refl), refl)
      drops opening = ((status, refl, refl), refl)
      drops open_ = ((status, refl, refl), refl)
      drops gone = ((status, refl, refl), refl)

      opening_alive : (k : SocketState) → is_opening y sample k ≡ true → is_alive y sample k ≡ true
      opening_alive opening h = refl
      opening_alive open_ h = refl
      opening_alive gone h = cc
      opening_alive no_socket h = cc

      open_alive : (k : SocketState) → is_open y sample k ≡ true → is_alive y sample k ≡ true
      open_alive open_ h = refl
      open_alive opening h = refl
      open_alive gone h = cc
      open_alive no_socket h = cc

      go :
          (e : Event)
          → possible y sample e s ≡ true
          → Quiet (handle y sample e s) × ((handle y sample e s).made ≡ s.made)
      go opened p = absurd (cc (sym dead ∙ opening_alive s.socket p))
      go (received m) p = absurd (cc (sym dead ∙ open_alive s.socket p))
      go (closed_with code reason) p = absurd (cc (sym dead ∙ p))
      go fired p = absurd (cc (ap is_some (sym timer) ∙ p))
      go online p = elim (Bool-cases s.destroyed) [
        | inl d ↦ simp d ((status, timer, dead), refl)
        | inr d ↦ simp (d, status) ((refl, timer, dead), refl)
      ]
      go (doc_updated update remote) p = ((status, timer, dead), refl)
      go (doc_updated update local) p = sends (update_message update)
      go (awareness_updated remote) p = ((status, timer, dead), refl)
      go (awareness_updated local) p = sends (awareness_message (y.encode_awareness s.awareness))
      go (stored false) p = ((status, timer, dead), refl)
      go (stored true) p = elim (Bool-cases (s.ready || s.destroyed)) [
        | inl e ↦ simp e ((status, timer, dead), refl)
        | inr e ↦ simp e ((status, timer, dead), refl)
      ]
      go unmounted p = elim (Bool-cases s.destroyed) [
        | inl d ↦ simp d ((status, timer, dead), refl)
        | inr d ↦ simp d (drops s.socket)
      ]

  react_all-Quiet :
      (s : Provider y) (es : List Event) → Quiet s → (react_all y sample s es).made ≡ s.made
  react_all-Quiet s [] q = refl
  react_all-Quiet s (e ∷ es) q =
      let (next, made) = react-Quiet s e q in react_all-Quiet (react y sample s e) es next ∙ made

  -- A provider that was closed for good makes no further socket, whatever events follow.
  pub closed_for_good :
      (ydoc : y.Doc) (awareness : y.Awareness) (es fs : List Event)
      → (react_all y sample (new_provider y sample ydoc awareness) es).status ≡ closed
      → (react_all y sample (react_all y sample (new_provider y sample ydoc awareness) es) fs).made
        ≡ (react_all y sample (new_provider y sample ydoc awareness) es).made
  unfolding Quiet
  closed_for_good ydoc awareness es fs status =
      let s = react_all y sample (new_provider y sample ydoc awareness) es in
      let v =
        react_all-Tidy y sample (new_provider y sample ydoc awareness) es
          (new_provider-Tidy y sample ydoc awareness) in
      react_all-Quiet s fs (elim (Tidy-cases y sample s v) [
        | inl (d, e, timer, made) ↦ (status, timer, ap (is_alive y sample) e)
        | inr (inl (d, alive, timer, made, ne)) ↦ absurd (ne status)
        | inr (inr (d, e, made, inl (status', timer))) ↦ (status, timer, ap (is_alive y sample) e)
        | inr (inr (d, e, made, inr (status', timer))) ↦ absurd (cc (sym status ∙ status'))
      ])
