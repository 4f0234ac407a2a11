-- ===== src/Collab/Handshake.antt =====
-- apps/server/src/modules/collab/wsServer.ts: which upgrades become connections. The parser of URLs,
-- decodeURIComponent and the lookup of a token are arguments.
pub mod Outcomes
use collab_ide.Base.{
  ℕ, ◌≡◌, Bool, true, false, not, ◌||◌, List, [], ◌∷◌, Option, none, some, Str, text, ◌===◌, split,
  trim, length, ◌==◌, if◌then◌else◌,
}
use collab_ide.Shared.Protocol.{DocRef, parse_doc_id, CloseCode, bad_request, unauthenticated}
use collab_ide.Auth.Authorize.{User, Role}

pub record Request : Type 0 where
  pub url : Option Str
  pub origin : Option Str
  pub cookie : Option Str

pub record Url : Type 0 where
  pub pathname : Str
  -- `searchParams.get`
  pub param : Str → Option Str

abbrev pub session_cookie : Str
session_cookie = text "ce_session"

abbrev pub ws_doc_param : Str
ws_doc_param = text "doc"

-- `part.indexOf('=')`, with what stands before and after it.
abbrev pub cut_at : ℕ → Str → Option (Str × Str)
cut_at sep [] = none
cut_at sep (c ∷ s) = let rest = cut_at sep s in if c == sep then some ([], s) else longer c rest
  where
    longer : ℕ → Option (Str × Str) → Option (Str × Str)
    longer c none = none
    longer c (some cut) = some (c ∷ cut.0, cut.1)

-- What reading a cookie gives: undefined, its value, or the error of decodeURIComponent.
pub data Cookie : Type 0 where
  absent malformed : Cookie
  value : Str → Cookie

-- What `authenticateToken` gives: null, a user, or the error of the database, which stands outside
-- of its `try`.
pub data Lookup : Type 0 where
  no_user lookup_failed : Lookup
  found : User → Lookup

pub data Handshake : Type 0 where
  -- The socket is closed with the code.
  rejected : CloseCode → Handshake
  -- The promise is rejected.
  thrown : Handshake
  connection : User → DocRef → Option Role → Bool → List ℕ → Handshake

module _ (decode_uri : Str → Option Str) where
  abbrev pub decoded : Option Str → Cookie
  decoded none = malformed
  decoded (some s) = value s

  abbrev pub read_part : Str → Option (Str × Str) → Cookie → Cookie
  read_part name none rest = rest
  read_part name (some cut) rest =
      if trim cut.0 === name then decoded (decode_uri (trim cut.1)) else rest

  abbrev pub read_parts : Str → List Str → Cookie
  read_parts name [] = absent
  read_parts name (part ∷ parts) = read_part name (cut_at b'=' part) (read_parts name parts)

  unfoldable pub read_cookie : Option Str → Str → Cookie
  read_cookie none name = absent
  read_cookie (some header) name =
      if length header == 0 then absent else read_parts name (split b';' header)

abbrev pub or_empty : Option Str → Str
or_empty none = []
or_empty (some s) = s

abbrev pub wrong_origin : Str → Option Str → Bool
wrong_origin web_origin none = false
wrong_origin web_origin (some origin) = not (origin === web_origin)

module _ (parse_url : Str → Option Url) (decode_uri : Str → Option Str)
    (authenticate : Str → Lookup) (web_origin : Str) where
  abbrev pub with_user : DocRef → Lookup → Handshake
  with_user doc no_user = rejected unauthenticated
  with_user doc lookup_failed = thrown
  with_user doc (found user) = connection user doc none false []

  abbrev pub with_cookie : DocRef → Cookie → Handshake
  with_cookie doc absent = rejected unauthenticated
  with_cookie doc malformed = thrown
  with_cookie doc (value token) = with_user doc (authenticate token)

  abbrev pub with_doc : Request → Option DocRef → Handshake
  with_doc r none = rejected bad_request
  with_doc r (some doc) = with_cookie doc (read_cookie decode_uri r.cookie session_cookie)

  abbrev pub with_url : Request → Option Url → Handshake
  with_url r none = thrown
  with_url r (some url) = with_doc r (parse_doc_id (or_empty (url.param ws_doc_param)))

  unfoldable pub handshake : Request → Handshake
  handshake r =
      if wrong_origin web_origin r.origin
      then rejected bad_request
      else with_url r (parse_url (or_empty r.url))
