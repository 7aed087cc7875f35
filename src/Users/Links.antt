-- ===== src/Users/Links.antt =====
-- services/user.py: a magic link names its email until it expires.
use Prim.Native.Char.{Char, code}
use Prim.Native.String.append
use Prim.Native.String.{[], ◌∷◌}
use wikimind.Prelude.{
  pos, ℕ, ◌+◌, String, ◌+++◌, decimal, are_digits, are_digits-decimal, ◌≡◌, refl, sym, ap, ◌∙◌,
  subst, Bool, true, not, ◌&&◌, ltb, none, some, if◌then◌else◌, ok, err, value_error, arith,
  eq_refl, eq→path,
}
use wikimind.Users.MagicLinks.{
  Codec, is_colon, rsplit, sign, create_magic_link_token, is_expired, check_ttl, check_signature,
  check_parts, verify_magic_link_token,
}

unfoldable pub colon_free : String → Bool
unfolding is_colon
colon_free [] = true
colon_free (c ∷ s) = not (is_colon c) && colon_free s

-- What the code relies on: base64 can be decoded and has no colon, and `int` reads `str`.
pub record IsCodec (codec : Codec) : Type 0 where
  pub decode-encode : (s : String) → codec.decode (codec.encode s) ≡ some s
  pub encode-colon_free : (s : String) → colon_free (codec.encode s) ≡ true
  pub int-decimal : (n : ℕ) → codec.int (decimal n) ≡ some (pos n)

first_code : String → ℕ
first_code [] = 0
first_code (c ∷ s) = code c

code-is_colon : (c : Char) → is_colon c ≡ true → code c ≡ 58
unfolding is_colon first_code
code-is_colon c h = ap first_code (eq→path (c ∷ []) ":" h)

are_digits-colon_free : (s : String) → are_digits s ≡ true → colon_free s ≡ true
unfolding are_digits colon_free
are_digits-colon_free [] h = refl
are_digits-colon_free (c ∷ s) h = ground (arith, code-is_colon c, are_digits-colon_free s)

rsplit-colon_free : (s : String) → colon_free s ≡ true → rsplit s ≡ none
unfolding rsplit colon_free is_colon
rsplit-colon_free [] h = refl
rsplit-colon_free (c ∷ s) h = rw (rsplit-colon_free s (ground arith)) (ground arith)

abbrev colon : Char
colon = ":"

rsplit-colon : (t : String) → colon_free t ≡ true → rsplit (":" +++ t) ≡ some ([], t)
unfolding rsplit is_colon
rsplit-colon t free =
    subst (λ u. rsplit u ≡ some ([], t))
      (sym (append.cons colon [] t ∙ ap (λ u. colon ∷ u) (append.nil t)))
      (rw (rsplit-colon_free t free, rsplit) refl)

rsplit-append : (s t : String) → colon_free t ≡ true → rsplit (s +++ ":" +++ t) ≡ some (s, t)
unfolding rsplit is_colon
rsplit-append [] t free =
    subst (λ u. rsplit u ≡ some ([], t)) (sym (append.nil (":" +++ t))) (rsplit-colon t free)
rsplit-append (c ∷ s) t free =
    subst (λ u. rsplit u ≡ some (c ∷ s, t)) (sym (append.cons c s (":" +++ t)))
      (rw (rsplit-append s t free, rsplit) refl)

check_parts-token :
    (codec : Codec) (secret email timestamp encoded : String) (ttl now : ℕ)
    → colon_free timestamp ≡ true
    → colon_free encoded ≡ true
    → check_parts codec secret ttl now ((email +++ ":" +++ timestamp) +++ ":" +++ encoded)
      ≡ check_signature codec secret ttl now email timestamp (codec.decode encoded)
unfolding check_parts
check_parts-token codec secret email timestamp encoded ttl now plain safe =
    rw
      (
        rsplit-append (email +++ ":" +++ timestamp) encoded safe,
        rsplit-append email timestamp plain,
        check_parts,
      )
      refl

-- With a codec that decodes what it encodes, encodes without colons, and reads decimal numbers: a
-- link that was made for an email, whatever characters it has, is accepted for that very email
-- until its time to live is over, and from then on refused as expired.
pub verify_magic_link_token-create_magic_link_token :
    (codec : Codec) (secret email : String) (ttl made now : ℕ)
    → IsCodec codec
    → verify_magic_link_token codec secret ttl now (create_magic_link_token codec secret made email)
      ≡ (if ltb (made + ttl) now then err (value_error "Token has expired") else ok email)
unfolding verify_magic_link_token create_magic_link_token check_signature check_ttl is_expired
verify_magic_link_token-create_magic_link_token codec secret email ttl made now law =
    let signature = sign codec secret email (decimal made) in
    rw
      (
        law.decode-encode ((email +++ ":" +++ decimal made) +++ ":" +++ codec.encode signature),
        check_parts-token codec secret email (decimal made) (codec.encode signature) ttl now
            (are_digits-colon_free (decimal made) (are_digits-decimal made))
            (law.encode-colon_free signature),
        law.decode-encode signature,
        eq_refl signature,
        law.int-decimal made,
        verify_magic_link_token,
        create_magic_link_token,
        check_signature,
        check_ttl,
        is_expired,
      )
      refl
