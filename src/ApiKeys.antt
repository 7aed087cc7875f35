-- ===== src/ApiKeys.antt =====
-- services/api_keys.py: users' own provider keys, stored encrypted. PBKDF2, Fernet and the hex
-- notation of bytes are given; bytes are texts. The salt, Fernet's random bytes, new ids and the
-- time are arguments.
pub mod Mask
pub mod Storage
mod Examples
use wikimind.Prelude.{
  ℕ, zero, suc, ◌-◌, String, ◌==◌, ◌+++◌, Bool, true, false, ◌&&◌, leb, Option, none, some, List,
  [], ◌∷◌, ◌++◌, map, filter, if◌then◌else◌, get_row, is_some, delete_row, Result, ok, err,
  value_error, integrity_error, invalid_token, Action, one_or_none,
}
use wikimind.Router.{Provider, same}

pub record UserApiKey : Type 0 where
  pub id : String
  pub user_id : String
  pub provider : Provider
  pub encrypted_key : String
  pub salt : String
  pub created_at : ℕ
  pub updated_at : ℕ

pub record Crypto : Type 0 where
  pub derive : String → String → String
  pub encrypt : String → String → String → String
  pub decrypt : String → String → Option String
  pub hex : String → String
  pub fromhex : String → Option String

-- `_derive_fernet_key`: `jwt_secret_key` may be missing.
pub derive_fernet_key : Crypto → String → String → Result String
derive_fernet_key crypto secret salt =
    if secret == ""
    then err (
        value_error
          "JWT_SECRET_KEY must be configured for BYOK encryption. Set WIKIMIND_AUTH__JWT_SECRET_KEY in your environment.")
    else ok (crypto.derive secret salt)

pub record EncryptedApiKey : Type 0 where
  pub encrypted_key : String
  pub salt_hex : String

pub encrypt_api_key : Crypto → String → String → String → String → Result EncryptedApiKey
unfolding derive_fernet_key
encrypt_api_key crypto secret salt random plaintext = elim (derive_fernet_key crypto secret salt) [
  | err e ↦ err e
  | ok key ↦
      ok
        (record { encrypted_key = crypto.encrypt key random plaintext; salt_hex = crypto.hex salt })
]

or_invalid : Option String → Result String
or_invalid none = err invalid_token
or_invalid (some text) = ok text

decrypt_with : Crypto → String → Result String → Result String
unfolding or_invalid
decrypt_with crypto encrypted_key (err e) = err e
decrypt_with crypto encrypted_key (ok key) = or_invalid (crypto.decrypt key encrypted_key)

pub decrypt_api_key : Crypto → String → String → String → Result String
unfolding derive_fernet_key decrypt_with
decrypt_api_key crypto secret encrypted_key salt_hex = elim (crypto.fromhex salt_hex) [
  | none ↦ err (value_error "non-hexadecimal number found in fromhex() arg")
  | some salt ↦ decrypt_with crypto encrypted_key (derive_fernet_key crypto secret salt)
]

pub is_for : String → Provider → UserApiKey → Bool
is_for user_id provider row = row.user_id == user_id && same row.provider provider

-- `scalar_one_or_none()` of the row for a user and a provider.
pub lookup : String → Provider → List UserApiKey → Result (Option UserApiKey)
unfolding is_for
lookup user_id provider rows = one_or_none (filter (is_for user_id provider) rows)

pub rekey : ℕ → EncryptedApiKey → UserApiKey → UserApiKey
rekey now encrypted row = record row {
  encrypted_key = encrypted.encrypted_key;
  salt = encrypted.salt_hex;
  updated_at = now;
}

-- The new values of the one row for the user and the provider.
pub rekey_row : ℕ → EncryptedApiKey → String → Provider → List UserApiKey → List UserApiKey
unfolding is_for rekey
rekey_row now encrypted user_id provider =
    map (λ row. if is_for user_id provider row then rekey now encrypted row else row)

pub new_row : String → ℕ → String → Provider → EncryptedApiKey → UserApiKey
new_row new_id now user_id provider encrypted = record {
  id = new_id;
  user_id = user_id;
  provider = provider;
  encrypted_key = encrypted.encrypted_key;
  salt = encrypted.salt_hex;
  created_at = now;
  updated_at = now;
}

-- The encrypted key is stored in the row that is there, or in a new one.
pub store :
    String
    → ℕ
    → String
    → Provider
    → EncryptedApiKey
    → Result (Option UserApiKey)
    → Action (List UserApiKey) UserApiKey
unfolding rekey rekey_row new_row
store new_id now user_id provider encrypted (err e) rows = (err e, rows)
store new_id now user_id provider encrypted (ok (some existing)) rows =
    (ok (rekey now encrypted existing), rekey_row now encrypted user_id provider rows)
store new_id now user_id provider encrypted (ok none) rows =
    let row = new_row new_id now user_id provider encrypted in
    if is_some (get_row UserApiKey.id new_id rows)
    then (err integrity_error, rows)
    else (ok row, rows ++ (row ∷ []))

pub set_user_api_key :
    Crypto
    → String
    → String
    → String
    → String
    → ℕ
    → String
    → Provider
    → String
    → Action (List UserApiKey) UserApiKey
unfolding encrypt_api_key store lookup
set_user_api_key crypto secret salt random new_id now user_id provider api_key rows =
    elim (encrypt_api_key crypto secret salt random api_key) [
      | err e ↦ (err e, rows)
      | ok encrypted ↦
          store new_id now user_id provider encrypted (lookup user_id provider rows) rows
    ]

-- `None` for no row, or the decrypted key.
pub reveal : Crypto → String → Option UserApiKey → Result (Option String)
unfolding decrypt_api_key
reveal crypto secret none = ok none
reveal crypto secret (some row) = elim (decrypt_api_key crypto secret row.encrypted_key row.salt) [
  | err e ↦ err e
  | ok key ↦ ok (some key)
]

pub get_user_api_key :
    Crypto → String → String → Provider → List UserApiKey → Result (Option String)
unfolding lookup reveal
get_user_api_key crypto secret user_id provider rows = elim (lookup user_id provider rows) [
  | err e ↦ err e
  | ok row ↦ reveal crypto secret row
]

pub list_user_api_keys : String → List UserApiKey → List UserApiKey
list_user_api_keys user_id rows = filter (λ row. row.user_id == user_id) rows

pub delete_user_api_key : String → Provider → Action (List UserApiKey) Bool
unfolding lookup
delete_user_api_key user_id provider rows = elim (lookup user_id provider rows) [
  | err e ↦ (err e, rows)
  | ok none ↦ (ok false, rows)
  | ok (some row) ↦ (ok true, delete_row UserApiKey.id row.id rows)
]
