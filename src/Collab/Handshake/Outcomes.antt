-- ===== src/Collab/Handshake/Outcomes.antt =====
-- When a handshake gives a connection, and when its promise is rejected.
use collab_ide.Base.{
  ℕ, ◌≡◌, ◌↔◌, ◌⊎◌, inl, inr, refl, ap, sym, subst, ◌∙◌, Bool, false, List, [], Option, none, some,
  Str, Bool-cases, Option-cases,
}
use collab_ide.Shared.Protocol.{DocRef, parse_doc_id, bad_request}
use collab_ide.Auth.Authorize.{User, Role}
use collab_ide.Collab.Handshake.{
  Request, Url, session_cookie, ws_doc_param, Lookup, no_user, lookup_failed, found, Cookie, absent,
  malformed, value, rejected, thrown, connection, read_cookie, or_empty, wrong_origin, with_user,
  with_cookie, handshake,
}

module _ (parse_url : Str → Option Url) (decode_uri : Str → Option Str)
    (authenticate : Str → Lookup) (web_origin : Str) where
  -- The request comes from the web client or from no page at all, and names a document.
  abbrev pub Names : Request → DocRef → Type 0
  Names r doc =
      (wrong_origin web_origin r.origin ≡ false)
      × ((url : Url) × (parse_url (or_empty r.url) ≡ some url)
          × (parse_doc_id (or_empty (url.param ws_doc_param)) ≡ some doc))

  abbrev pub Admitted : Request → DocRef → User → Type 0
  Admitted r doc user =
      Names r doc
      × ((token : Str) × (read_cookie decode_uri r.cookie session_cookie ≡ value token)
          × (authenticate token ≡ found user))

  abbrev pub Unhandled : Request → Type 0
  Unhandled r =
      ((wrong_origin web_origin r.origin ≡ false) × (parse_url (or_empty r.url) ≡ none))
      ⊎ ((named : DocRef) × Names r named
          × ((read_cookie decode_uri r.cookie session_cookie ≡ malformed)
              ⊎ ((token : Str) × (read_cookie decode_uri r.cookie session_cookie ≡ value token)
                  × (authenticate token ≡ lookup_failed))))

  Names-handshake :
      (r : Request) (doc : DocRef)
      → Names r doc
      → handshake parse_url decode_uri authenticate web_origin r
        ≡ with_cookie parse_url decode_uri authenticate web_origin doc
            (read_cookie decode_uri r.cookie session_cookie)
  unfolding handshake
  Names-handshake r doc (same, (url, parsed, named)) = simp (same, parsed, named) refl

  Outcome : Request → Type 0
  Outcome r =
      ((doc : DocRef) × Names r doc)
      ⊎ ((handshake parse_url decode_uri authenticate web_origin r ≡ rejected bad_request)
          ⊎ ((handshake parse_url decode_uri authenticate web_origin r ≡ thrown)
              × (wrong_origin web_origin r.origin ≡ false)
              × (parse_url (or_empty r.url) ≡ none)))

  outcome : (r : Request) → Outcome r
  unfolding handshake Outcome
  outcome r = elim (Bool-cases (wrong_origin web_origin r.origin)) [
    | inl foreign ↦ inr (inl (simp foreign refl))
    | inr same ↦ elim (Option-cases (parse_url (or_empty r.url))) [
      | inl unparsed ↦ inr (inr (simp (same, unparsed) refl, same, unparsed))
      | inr (url, parsed) ↦ elim (Option-cases (parse_doc_id (or_empty (url.param ws_doc_param)))) [
        | inl unnamed ↦ inr (inl (simp (same, parsed, unnamed) refl))
        | inr (doc, named) ↦ inl (doc, (same, (url, parsed, named)))
      ]
    ]
  ]

  made_inv :
      (doc doc' : DocRef) (user user' : User) (role role' : Option Role) (w w' : Bool)
      (ids ids' : List ℕ)
      → connection user doc role w ids ≡ connection user' doc' role' w' ids'
      → (user ≡ user') × (doc ≡ doc')
  made_inv doc doc' user user' role role' w w' ids ids' e = (cc, cc)

  with_user_inv :
      (doc doc' : DocRef) (o : Lookup) (user : User)
      → with_user parse_url decode_uri authenticate web_origin doc o
        ≡ connection user doc' none false []
      → (o ≡ found user) × (doc ≡ doc')
  with_user_inv doc doc' no_user user e = cc
  with_user_inv doc doc' lookup_failed user e = cc
  with_user_inv doc doc' (found other) user e =
      let (one, two) = made_inv doc doc' other user none none false false [] [] e in
      (ap found one, two)

  with_user-thrown :
      (doc : DocRef) (o : Lookup)
      → with_user parse_url decode_uri authenticate web_origin doc o ≡ thrown
      → o ≡ lookup_failed
  with_user-thrown doc no_user e = cc
  with_user-thrown doc lookup_failed e = refl
  with_user-thrown doc (found user) e = cc

  with_cookie_inv :
      (doc doc' : DocRef) (c : Cookie) (user : User)
      → with_cookie parse_url decode_uri authenticate web_origin doc c
        ≡ connection user doc' none false []
      → (doc ≡ doc') × ((token : Str) × (c ≡ value token) × (authenticate token ≡ found user))
  with_cookie_inv doc doc' absent user e = cc
  with_cookie_inv doc doc' malformed user e = cc
  with_cookie_inv doc doc' (value token) user e =
      let (one, two) = with_user_inv doc doc' (authenticate token) user e in
      (two, (token, refl, one))

  with_cookie-thrown :
      (doc : DocRef) (c : Cookie)
      → with_cookie parse_url decode_uri authenticate web_origin doc c ≡ thrown
      → (c ≡ malformed) ⊎ ((token : Str) × (c ≡ value token) × (authenticate token ≡ lookup_failed))
  with_cookie-thrown doc absent e = cc
  with_cookie-thrown doc malformed e = inl refl
  with_cookie-thrown doc (value token) e =
      inr (token, refl, with_user-thrown doc (authenticate token) e)

  -- A socket becomes the connection of a user to a document, with no role and no right to write yet,
  -- exactly when its request comes from the web client or from no page, names the document, and has a
  -- session cookie that can be decoded and authenticates the user; and the handshake ends in an error that nothing
  -- handles exactly when the URL is refused by the parser, or, for a request that comes from there and names a
  -- document, the session cookie cannot be decoded or the lookup of its user fails in the database.
  pub handshake_iff :
      (r : Request) (doc : DocRef) (user : User)
      → ((handshake parse_url decode_uri authenticate web_origin r
            ≡ connection user doc none false [])
          ↔ (Admitted r doc user))
        × ((handshake parse_url decode_uri authenticate web_origin r ≡ thrown) ↔ (Unhandled r))
  unfolding handshake Outcome
  handshake_iff r doc user = ((connected, connects), (failed, fails))
    where
      connected :
          handshake parse_url decode_uri authenticate web_origin r
            ≡ connection user doc none false []
          → Admitted r doc user
      connected e = elim (outcome r) [
        | inl (doc', names) ↦
            let (same, credentials) =
              with_cookie_inv doc' doc (read_cookie decode_uri r.cookie session_cookie) user
                (sym (Names-handshake r doc' names) ∙ e) in
            (subst (Names r) same names, credentials)
        | inr (inl x) ↦ cc
        | inr (inr x) ↦ cc x.0
      ]

      connects :
          Admitted r doc user
          → handshake parse_url decode_uri authenticate web_origin r
            ≡ connection user doc none false []
      connects (names, (token, read, known)) = Names-handshake r doc names ∙ rw (read, known) refl

      failed : handshake parse_url decode_uri authenticate web_origin r ≡ thrown → Unhandled r
      failed e = elim (outcome r) [
        | inl (doc', names) ↦ inr (
          doc',
          names,
          with_cookie-thrown doc' (read_cookie decode_uri r.cookie session_cookie)
              (sym (Names-handshake r doc' names) ∙ e),
        )
        | inr (inl x) ↦ cc
        | inr (inr x) ↦ inl (x.1, x.2)
      ]

      fails : Unhandled r → handshake parse_url decode_uri authenticate web_origin r ≡ thrown
      fails (inl (same, unparsed)) = simp (same, unparsed) refl
      fails (inr (named, names, inl read)) = Names-handshake r named names ∙ rw read refl
      fails (inr (named, names, inr (token, read, failed_))) =
          Names-handshake r named names ∙ rw (read, failed_) refl
