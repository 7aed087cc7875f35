-- ===== src/Users/MagicLinks.antt =====
-- services/user.py `create_magic_link_token` and `verify_magic_link_token`. Bytes are texts.
-- HMAC-SHA256, URL-safe base64 (with `none` for what is none, or is not UTF-8) and `int` are given.
use Prim.Native.Char.{Char}
use Prim.Native.String.{[], ◌∷◌}
use wikimind.Prelude.{
  ℤ, pos, negsuc, ℕ, suc, ◌+◌, String, ◌==◌, ◌+++◌, decimal, Bool, ltb, Option, none, some,
  if◌then◌else◌, Result, ok, err, value_error,
}

pub record Codec : Type 0 where
  pub hmac : String → String → String
  pub encode : String → String
  pub decode : String → Option String
  pub int : String → Option ℤ

unfoldable pub is_colon : Char → Bool
is_colon c = (c ∷ []) == ":"

-- `rsplit(":", 1)`: the text before the last colon and the text behind it.
unfoldable pub rsplit : String → Option (String × String)
unfolding is_colon
rsplit [] = none
rsplit (c ∷ s) = elim (rsplit s) [
  | some (front, back) ↦ some (c ∷ front, back)
  | none ↦ if is_colon c then some ([], s) else none
]

unfoldable pub sign : Codec → String → String → String → String
sign codec secret email timestamp = codec.hmac secret (email +++ ":" +++ timestamp)

unfoldable pub create_magic_link_token : Codec → String → ℕ → String → String
unfolding sign
create_magic_link_token codec secret now email =
    let timestamp = decimal now in
    codec.encode
      ((email +++ ":" +++ timestamp) +++ ":" +++ codec.encode (sign codec secret email timestamp))

-- `int(time.time()) - created_at > ttl`
unfoldable pub is_expired : ℕ → ℕ → ℤ → Bool
is_expired ttl now (pos created_at) = ltb (created_at + ttl) now
is_expired ttl now (negsuc n) = ltb ttl (now + suc n)

unfoldable pub check_ttl : ℕ → ℕ → String → Option ℤ → Result String
unfolding is_expired
check_ttl ttl now email none = err (value_error "Invalid timestamp")
check_ttl ttl now email (some created_at) =
    if is_expired ttl now created_at then err (value_error "Token has expired") else ok email

unfoldable pub check_signature :
    Codec → String → ℕ → ℕ → String → String → Option String → Result String
unfolding sign check_ttl
check_signature codec secret ttl now email timestamp none =
    err (value_error "Invalid signature encoding")
check_signature codec secret ttl now email timestamp (some actual) =
    if sign codec secret email timestamp == actual
    then check_ttl ttl now email (codec.int timestamp)
    else err (value_error "Invalid token signature")

-- `rsplit(":", 2)`: the two last colons cut the text in three.
unfoldable pub check_parts : Codec → String → ℕ → ℕ → String → Result String
unfolding rsplit check_signature
check_parts codec secret ttl now decoded = elim (rsplit decoded) [
  | none ↦ err (value_error "Malformed token")
  | some (front, encoded) ↦ elim (rsplit front) [
    | none ↦ err (value_error "Malformed token")
    | some (email, timestamp) ↦
        check_signature codec secret ttl now email timestamp (codec.decode encoded)
  ]
]

unfoldable pub verify_magic_link_token : Codec → String → ℕ → ℕ → String → Result String
unfolding check_parts
verify_magic_link_token codec secret ttl now token = elim (codec.decode token) [
  | none ↦ err (value_error "Invalid token encoding")
  | some decoded ↦ check_parts codec secret ttl now decoded
]
