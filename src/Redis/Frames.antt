-- ===== src/Redis/Frames.antt =====
-- Frames on the bus: `encodeFrame` and `decodeFrame` of
-- apps/server/src/modules/redis/docBus.ts.
use collab_ide.Base.{
  ℕ, zero, suc, ◌≡◌, refl, subst, List, [], ◌++◌, append-nil, Option, none, some, Str,
}
use collab_ide.Collab.Messages.{DocFrame, sync_frame, awareness_frame}

-- The variable-length encodings of lib0: each reader gives back what its writer wrote, and leaves
-- the bytes that follow. A reader that throws gives none.
pub record Lib0 : Type 0 where
  pub write_var_string : Str → List ℕ
  pub read_var_string : List ℕ → Option (Str × List ℕ)
  pub write_var_uint : ℕ → List ℕ
  pub read_var_uint : List ℕ → Option (ℕ × List ℕ)
  pub write_var_bytes : List ℕ → List ℕ
  pub read_var_bytes : List ℕ → Option (List ℕ × List ℕ)
  pub string_read :
      (s : Str) (rest : List ℕ) → read_var_string (write_var_string s ++ rest) ≡ some (s, rest)
  pub uint_read :
      (n : ℕ) (rest : List ℕ) → read_var_uint (write_var_uint n ++ rest) ≡ some (n, rest)
  pub bytes_read :
      (bs rest : List ℕ) → read_var_bytes (write_var_bytes bs ++ rest) ≡ some (bs, rest)

pub record EnvelopedFrame : Type 0 where
  pub instance_id : Str
  pub frame : DocFrame

-- DocFrameKind.
abbrev pub kind_of : DocFrame → ℕ
kind_of (sync_frame payload) = 0
kind_of (awareness_frame payload) = 1

abbrev pub payload_of : DocFrame → List ℕ
payload_of (sync_frame payload) = payload
payload_of (awareness_frame payload) = payload

-- The frame of a kind, when the kind is known.
abbrev pub frame_of : ℕ → Option (List ℕ → DocFrame)
frame_of zero = some sync_frame
frame_of (suc zero) = some awareness_frame
frame_of (suc (suc n)) = none

module _ (l : Lib0) where
  unfoldable pub encode_frame : Str → DocFrame → List ℕ
  encode_frame instance_id frame =
      l.write_var_string instance_id
      ++ (l.write_var_uint (kind_of frame) ++ l.write_var_bytes (payload_of frame))

  abbrev pub decode_payload : Str → Option (List ℕ → DocFrame) → List ℕ → Option EnvelopedFrame
  decode_payload instance_id none rest = none
  decode_payload instance_id (some make) rest = elim (l.read_var_bytes rest) [
    | none ↦ none
    | some (payload, left) ↦ some (record { instance_id = instance_id; frame = make payload })
  ]

  unfoldable pub decode_frame : List ℕ → Option EnvelopedFrame
  decode_frame bytes = elim (l.read_var_string bytes) [
    | none ↦ none
    | some (instance_id, after_id) ↦ elim (l.read_var_uint after_id) [
      | none ↦ none
      | some (kind, after_kind) ↦ decode_payload instance_id (frame_of kind) after_kind
    ]
  ]

  read_var_bytes-all : (bs : List ℕ) → l.read_var_bytes (l.write_var_bytes bs) ≡ some (bs, [])
  read_var_bytes-all bs =
      subst (λ x. l.read_var_bytes x ≡ some (bs, [])) (append-nil (l.write_var_bytes bs))
        (l.bytes_read bs [])

  -- A frame that an instance encodes is decoded to the frame with the id of the instance.
  pub decode_frame-encode_frame :
      (instance_id : Str) (frame : DocFrame)
      → decode_frame (encode_frame instance_id frame)
        ≡ some (record { instance_id = instance_id; frame = frame })
  unfolding decode_frame encode_frame
  decode_frame-encode_frame instance_id frame =
      let after_id = l.write_var_uint (kind_of frame) ++ l.write_var_bytes (payload_of frame) in
      rw
        (
          l.string_read instance_id after_id,
          l.uint_read (kind_of frame) (l.write_var_bytes (payload_of frame)),
          decode_frame,
        )
        (decode_payload-frame frame)
    where
      decode_payload-frame :
          (f : DocFrame)
          → decode_payload instance_id (frame_of (kind_of f)) (l.write_var_bytes (payload_of f))
            ≡ some (record { instance_id = instance_id; frame = f })
      decode_payload-frame (sync_frame payload) = rw (read_var_bytes-all payload) refl
      decode_payload-frame (awareness_frame payload) = rw (read_var_bytes-all payload) refl

  -- A frame of an unknown kind is no frame.
  pub decode_frame_unknown :
      (instance_id : Str) (kind : ℕ) (rest : List ℕ)
      → decode_frame (l.write_var_string instance_id ++ (l.write_var_uint (suc (suc kind)) ++ rest))
        ≡ none
  unfolding decode_frame
  decode_frame_unknown instance_id kind rest =
      rw
        (
          l.string_read instance_id (l.write_var_uint (suc (suc kind)) ++ rest),
          l.uint_read (suc (suc kind)) rest,
          decode_frame,
        )
        refl
