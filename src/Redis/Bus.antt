-- ===== src/Redis/Bus.antt =====
-- The document bus of one instance: apps/server/src/modules/redis/docBus.ts. The calls that it makes
-- on its two connections are kept in order. A call that Redis refuses is only logged by the source.
use collab_ide.Base.{
  ℕ, ◌≡◌, Bool, true, false, not, ◌&&◌, List, [], ◌∷◌, ◌++◌, Option, none, some, Str, text, ◌===◌,
  if◌then◌else◌, any, keep,
}
use collab_ide.Collab.Messages.{DocFrame}
use collab_ide.Redis.Frames.{Lib0, EnvelopedFrame, encode_frame, decode_frame}
pub mod Handlers
pub mod Subscriptions
pub mod Refines

pub data RedisCall : Type 0 where
  connect_publisher connect_subscriber quit_publisher quit_subscriber : RedisCall
  subscribe unsubscribe : Str → RedisCall
  publish : Str → List ℕ → RedisCall

abbrev pub doc_channel : Str → Str
doc_channel doc_id = text "doc:" ++ doc_id

module _ {H : Type 0} where
  -- The Map of handlers, in the order of insertion.
  abbrev pub get : List (Str × H) → Str → Option H
  get [] key = none
  get ((k, h) ∷ m) key = if k === key then some h else get m key

  abbrev pub has : List (Str × H) → Str → Bool
  has m key = any (λ e. e.0 === key) m

  abbrev pub set : List (Str × H) → Str → H → List (Str × H)
  set [] key h = (key, h) ∷ []
  set ((k, g) ∷ m) key h = let rest = set m key h in if k === key then (k, h) ∷ m else (k, g) ∷ rest

  abbrev pub delete : List (Str × H) → Str → List (Str × H)
  delete m key = keep (λ e. not (e.0 === key)) m

pub record Bus (H : Type 0) : Type 0 where
  pub publisher : Bool
  pub subscriber : Bool
  pub handlers : List (Str × H)
  pub calls : List RedisCall

abbrev pub no_bus : {H : Type 0} → Bus H
no_bus = record { publisher = false; subscriber = false; handlers = []; calls = [] }

module _ {H : Type 0} (l : Lib0) (instance_id : Str) where
  abbrev pub call : RedisCall → Bus H → Bus H
  call c b = record b { calls = b.calls ++ c ∷ [] }

  abbrev pub get_publisher : Bus H → Bus H
  get_publisher b =
      if b.publisher then b else call connect_publisher (record b { publisher = true })

  abbrev pub get_subscriber : Bus H → Bus H
  get_subscriber b =
      if b.subscriber then b else call connect_subscriber (record b { subscriber = true })

  unfoldable pub subscribe_doc : Str → H → Bus H → Bus H
  subscribe_doc doc_id on_frame b =
      let channel = doc_channel doc_id in
      let registered = record b { handlers = set b.handlers channel on_frame } in
      if has b.handlers channel
      then registered
      else call (subscribe channel) (get_subscriber registered)

  unfoldable pub unsubscribe_doc : Str → Bus H → Bus H
  unsubscribe_doc doc_id b =
      let channel = doc_channel doc_id in
      if not b.subscriber
      then b
      else (if has b.handlers channel
          then call (unsubscribe channel) (record b { handlers = delete b.handlers channel })
          else b)

  unfoldable pub publish_doc : Str → DocFrame → Bus H → Bus H
  publish_doc doc_id frame b =
      call (publish (doc_channel doc_id) (encode_frame l instance_id frame)) (get_publisher b)

  abbrev pub quit : Bool → RedisCall → Bus H → Bus H
  quit connected c b = if connected then call c b else b

  unfoldable pub close_doc_bus : Bus H → Bus H
  close_doc_bus b = quit b.subscriber quit_subscriber (
      quit b.publisher quit_publisher
        (record b { handlers = []; publisher = false; subscriber = false }))

  -- The handler that a message is given to, with the frame; our own echo is dropped.
  abbrev pub hand_over : Option EnvelopedFrame → Option H → Option (H × DocFrame)
  hand_over none handler = none
  hand_over (some e) none = none
  hand_over (some e) (some handler) =
      if e.instance_id === instance_id then none else some (handler, e.frame)

  unfoldable pub on_message : Str → List ℕ → Bus H → Option (H × DocFrame)
  on_message channel message b = hand_over (decode_frame l message) (get b.handlers channel)
