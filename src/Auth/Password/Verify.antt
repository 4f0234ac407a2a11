-- ===== src/Auth/Password/Verify.antt =====
-- A stored password against the one that it was made from.
use collab_ide.Base.{
  ℕ, ◌≡◌, ◌≢◌, ◌↔◌, refl, ap, sym, ◌∙◌, arith, Bool, true, false, List, [], ◌∷◌, some, Str, ◌===◌,
  ===_refl, ===_sound, split, join, length, ◌==◌, includes_char, split_no_sep, split_at_sep, text,
  ok, Option-cases, inl, inr,
}
use collab_ide.Auth.Password.{
  natural, Crypto, prefix, key_length, default_n, default_r, default_p, max_mem, default_key,
  encode, hash_password, verify_parts, verify_password, burn_verification_time,
}

abbrev Plain : ℕ → List Str → Type 0
Plain sep [] = Unit
Plain sep (s ∷ ss) = (includes_char s sep ≡ false) × Plain sep ss

-- Parts without the separator are read back from their join.
split-join :
    (sep : ℕ) (a : Str) (parts : List Str)
    → Plain sep (a ∷ parts)
    → split sep (join sep (a ∷ parts)) ≡ a ∷ parts
unfolding join
split-join sep a [] (plain, rest) = split_no_sep sep a plain
split-join sep a (b ∷ parts) (plain, rest) =
    split_at_sep sep a (join sep (b ∷ parts)) plain ∙ ap (◌∷◌ a) (split-join sep b parts rest)

prefix_plain : includes_char prefix b'$' ≡ false
unfolding text
prefix_plain = refl

module _ (c : Crypto) where
  -- The default costs are within the bounds and within MAX_MEM.
  pub default_key_given :
      (password : Str) (salt : List ℕ)
      → (key : List ℕ) × (default_key c password salt ≡ some key) × (length key ≡ key_length)
  default_key_given password salt = elim (Option-cases (default_key c password salt)) [
    | inl e ↦
        elim (c.within_bounds password salt key_length 15 default_r default_p max_mem (omega arith)
          (omega arith) (omega arith) (omega arith) (omega arith) (omega arith) e) [ ]
    | inr (key, e) ↦ (
      key,
      e,
      c.length-scrypt password salt key_length (natural default_n) (natural default_r)
          (natural default_p) max_mem key e,
    )
  ]

  verify_encoded :
      (salt key other_key : List ℕ) (other : Str)
      → length salt ≢ 0
      → length key ≡ key_length
      → default_key c other salt ≡ some other_key
      → length other_key ≡ key_length
      → verify_password c other (encode c salt key) ≡ ok (other_key === key)
  unfolding verify_password
  verify_encoded salt key other_key other ne size given size' =
      let parts =
        split-join b'$' prefix
          (c.print default_n
            ∷ c.print default_r
            ∷ c.print default_p
            ∷ c.to_base64 salt
            ∷ c.to_base64 key
            ∷ [])
          (
            prefix_plain,
            (
              c.print_plain default_n,
              (
                c.print_plain default_r,
                (c.print_plain default_p, (c.base64_plain salt, (c.base64_plain key, tt))),
              ),
            ),
          ) in
      let some_salt : (length salt == 0) ≡ false = ground arith in
      ap (verify_parts c other) parts
      ∙ rw
          (
            ===_refl prefix,
            c.read_back default_n,
            c.read_back default_r,
            c.read_back default_p,
            c.decoded salt,
            c.decoded key,
            some_salt,
            size,
            given,
            size',
          )
          refl

  -- A password with a salt that is not empty can always be hashed, and the stored form accepts the
  -- password itself, and another one exactly when both have the same key under that salt; no
  -- verification against it is rejected.
  pub verify_password-hash_password :
      (salt : List ℕ) (password : Str)
      → length salt ≢ 0
      → (hash : Str) × (hash_password c salt password ≡ ok hash)
        × (verify_password c password hash ≡ ok true)
        × ((other : Str)
            → (answer : Bool) × (verify_password c other hash ≡ ok answer)
              × ((answer ≡ true) ↔ (default_key c other salt ≡ default_key c password salt)))
  unfolding hash_password
  verify_password-hash_password salt password ne =
      let (key, given, size) = default_key_given password salt in
      (
        encode c salt key,
        rw given refl,
        verify_encoded salt key key password ne size given size ∙ ap ok (===_refl key),
        λ other.
            let (other_key, given', size') = default_key_given other salt in
            (
              other_key === key,
              verify_encoded salt key other_key other ne size given' size',
              (
                λ h. given' ∙ ap some (===_sound other_key key h) ∙ sym given,
                λ same.
                    let equal : other_key ≡ key = cc in ap (λ k. k === key) equal ∙ ===_refl key,
              ),
            ),
      )

  -- The dummy verification is not rejected.
  pub burn_verification_time-ok :
      (salt : List ℕ)
      → length salt ≢ 0
      → (answer : Bool) × (burn_verification_time c salt ≡ ok answer)
  unfolding burn_verification_time
  burn_verification_time-ok salt ne =
      let (hash, made, own, others) =
        verify_password-hash_password salt (text "an unused password, hashed once per process")
          ne in
      let (answer, verified, same) = others (text "definitely not the password") in
      (answer, rw made verified)
