-- ===== src/Redis/Bus/Handlers.antt =====
-- The map of handlers of the document bus, and the channels that Redis delivers after its calls.
use collab_ide.Base.{
  ◌≡◌, ◌∙◌, refl, sym, ap, inl, inr, arith, Bool, false, not, ◌&&◌, ◌||◌, List, [], ◌∷◌, ◌++◌, none,
  some, Str, ◌===◌, ===_refl, ===_sound, ===_comm, if◌then◌else◌, is_some, Bool-cases,
}
use collab_ide.Redis.Bus.{
  RedisCall, connect_publisher, connect_subscriber, quit_publisher, quit_subscriber, subscribe,
  unsubscribe, publish, get, has, set, delete,
}

-- Whether Redis delivers a channel to the instance after these calls.
abbrev pub listens : Str → Bool → RedisCall → Bool
listens channel before (subscribe c) = (c === channel) || before
listens channel before (unsubscribe c) = not (c === channel) && before
listens channel before quit_subscriber = false
listens channel before connect_publisher = before
listens channel before connect_subscriber = before
listens channel before quit_publisher = before
listens channel before (publish c bytes) = before

abbrev pub listening : Str → Bool → List RedisCall → Bool
listening channel before [] = before
listening channel before (c ∷ cs) = listening channel (listens channel before c) cs

pub listening-append :
    (channel : Str) (before : Bool) (cs : List RedisCall) (c : RedisCall)
    → listening channel before (cs ++ c ∷ []) ≡ listens channel (listening channel before cs) c
listening-append channel before [] c = refl
listening-append channel before (d ∷ cs) c =
    listening-append channel (listens channel before d) cs c

module _ {H : Type 0} where
  pub has-get : (m : List (Str × H)) (key : Str) → has m key ≡ is_some (get m key)
  has-get [] key = refl
  has-get ((k, h) ∷ m) key = ground (arith, has-get m key)

  pub get-set :
      (m : List (Str × H)) (key : Str) (h : H) (c : Str)
      → get (set m key h) c ≡ (if key === c then some h else get m c)
  get-set [] key h c = refl
  get-set ((k, g) ∷ m) key h c = elim (Bool-cases (k === key)) [
    | inl e ↦
        let same = ===_sound k key e in
        rw same (
          rw (===_refl key)
            (elim (Bool-cases (key === c)) [ inl q ↦ rw q refl | inr q ↦ rw q refl ]))
    | inr e ↦ rw e (elim (Bool-cases (k === c)) [
      | inl q ↦
          let same = ===_sound k c q in
          let other : (key === c) ≡ false = ap (λ x. key === x) (sym same) ∙ ===_comm key k ∙ e in
          rw (q, other) refl
      | inr q ↦ rw q (get-set m key h c)
    ])
  ]

  pub get-delete :
      (m : List (Str × H)) (key c : Str)
      → get (delete m key) c ≡ (if key === c then none else get m c)
  get-delete [] key c = elim (Bool-cases (key === c)) [ inl q ↦ rw q refl | inr q ↦ rw q refl ]
  get-delete ((k, g) ∷ m) key c = elim (Bool-cases (k === key)) [
    | inl e ↦
        let same = ===_sound k key e in
        rw (e, get-delete m key c, same)
          (elim (Bool-cases (key === c)) [ inl q ↦ rw q refl | inr q ↦ rw q refl ])
    | inr e ↦ rw e (elim (Bool-cases (k === c)) [
      | inl q ↦
          let same = ===_sound k c q in
          let other : (key === c) ≡ false = ap (λ x. key === x) (sym same) ∙ ===_comm key k ∙ e in
          rw (q, other) refl
      | inr q ↦ rw q (get-delete m key c)
    ])
  ]
