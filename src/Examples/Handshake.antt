-- ===== src/Examples/Handshake.antt =====
-- Upgrades of one user, with a lookup that knows one token; and a cookie that cannot be decoded.
use collab_ide.Base.{
  ◌≡◌, ◌↔◌, refl, false, [], Option, none, some, Str, text, ◌===◌, includes_char, trim, trim_start,
  is_space, split, if◌then◌else◌,
}
use collab_ide.Shared.Protocol.{DocRef, parse_doc_id, is_id_part, is_id_char}
use collab_ide.Auth.Authorize.{User}
use collab_ide.Collab.Handshake.{
  Lookup, no_user, found, Request, Url, thrown, connection, value, read_cookie, handshake,
  session_cookie,
}
use collab_ide.Collab.Handshake.Outcomes.{Admitted, Unhandled, handshake_iff}

-- Every URL names the document p:f.
abbrev parse_any : Str → Option Url
parse_any url = some (record { pathname = text "/ws"; param = λ name. some (text "p:f") })

-- A percent sign is refused.
abbrev decode : Str → Option Str
decode s = if includes_char s b'%' then none else some s

abbrev ann : User
ann = record { id = text "a"; email = text "a@b.c"; display_name = text "Ann" }

abbrev known : Str → Lookup
known token = if token === text "tok" then found ann else no_user

abbrev sent : Str → Request
sent cookie = record { url = some (text "/ws?doc=p:f"); origin = none; cookie = some cookie }

abbrev p_f : DocRef
p_f = record { project_id = text "p"; file_id = text "f" }

second_cookie :
    read_cookie decode (some (text "theme=dark; ce_session=tok")) session_cookie
    ≡ value (text "tok")
unfolding read_cookie split trim trim_start is_space text ◌===◌
second_cookie = refl

-- A client that has not logged in can make the promise of the handshake reject.
malformed_lem :
    handshake parse_any decode known (text "http://localhost:5173") (sent (text "ce_session=%"))
    ≡ thrown
unfolding handshake parse_doc_id is_id_part is_id_char read_cookie split trim trim_start is_space
    text ◌===◌
malformed_lem = refl

handshake_iff_example :
    ((handshake parse_any decode known (text "http://localhost:5173") (sent (text "ce_session=tok"))
        ≡ connection ann p_f none false [])
      ↔ Admitted parse_any decode known
          (text "http://localhost:5173")
          (sent (text "ce_session=tok"))
          p_f
          ann)
    × ((handshake parse_any decode known
            (text "http://localhost:5173")
            (sent (text "ce_session=tok"))
          ≡ thrown)
        ↔ Unhandled parse_any decode known
            (text "http://localhost:5173")
            (sent (text "ce_session=tok")))
handshake_iff_example =
    handshake_iff parse_any decode known (text "http://localhost:5173")
      (sent (text "ce_session=tok")) p_f ann
