-- ===== src/ApiKeys/Storage.antt =====
-- services/api_keys.py: a stored key is what is read back, and no other key changes.
use wikimind.Prelude.{
  ℕ, String, ◌==◌, ◌≡◌, refl, sym, ap, ◌∙◌, Bool, true, false, ◌&&◌, Option, none, some, List, [],
  ◌∷◌, ◌++◌, map, filter, if◌then◌else◌, get_row, is_some, Result, ok, err, one_or_none, one_new,
  filter-unmatched, Error, integrity_error, arith, eq_refl, eq→path, Bool-cases, inl, inr, subst,
}
use mathlib.Core.Option
use wikimind.Router.{Provider, same}
use wikimind.ApiKeys.{
  UserApiKey, Crypto, EncryptedApiKey, derive_fernet_key, encrypt_api_key, decrypt_api_key, is_for,
  lookup, rekey, rekey_row, new_row, store, set_user_api_key, reveal, get_user_api_key,
}

-- What the code relies on: Fernet decrypts with the key what was encrypted with it, and hex notation
-- reads back.
pub record IsCrypto (crypto : Crypto) : Type 0 where
  pub decrypt-encrypt :
      (key random text : String) → crypto.decrypt key (crypto.encrypt key random text) ≡ some text
  pub fromhex-hex : (salt : String) → crypto.fromhex (crypto.hex salt) ≡ some salt

map_found : (UserApiKey → UserApiKey) → Result (Option UserApiKey) → Result (Option UserApiKey)
map_found g (err e) = err e
map_found g (ok row) = ok (Option.map g row)

one_or_none-map :
    (g : UserApiKey → UserApiKey) (rows : List UserApiKey)
    → one_or_none (map g rows) ≡ map_found g (one_or_none rows)
unfolding map_found
one_or_none-map g [] = refl
one_or_none-map g (r ∷ []) = refl
one_or_none-map g (r ∷ s ∷ rows) = refl

filter-map :
    (q : UserApiKey → Bool) (g : UserApiKey → UserApiKey) (rows : List UserApiKey)
    → ((r : UserApiKey) → q (g r) ≡ q r)
    → filter q (map g rows) ≡ map g (filter q rows)
filter-map q g [] kept = refl
filter-map q g (r ∷ rows) kept = elim (Bool-cases (q r)) [
  | inl passes ↦ rw (kept r, passes, filter-map q g rows kept) refl
  | inr fails ↦ rw (kept r, fails, filter-map q g rows kept) refl
]

filter_cong :
    (p q : UserApiKey → Bool) (rows : List UserApiKey)
    → ((r : UserApiKey) → p r ≡ q r)
    → filter p rows ≡ filter q rows
filter_cong p q [] alike = refl
filter_cong p q (r ∷ rows) alike = rw (alike r, filter_cong p q rows alike) refl

-- Rows that a change leaves alone.
map-filter_other :
    (p q : UserApiKey → Bool) (f : UserApiKey → UserApiKey) (rows : List UserApiKey)
    → ((r : UserApiKey) → q r ≡ true → p r ≡ false)
    → map (λ r. if p r then f r else r) (filter q rows) ≡ filter q rows
map-filter_other p q f [] apart = refl
map-filter_other p q f (r ∷ rows) apart = elim (Bool-cases (q r)) [
  | inl passes ↦ rw (passes, apart r passes, map-filter_other p q f rows apart) refl
  | inr fails ↦ rw (fails, map-filter_other p q f rows apart) refl
]

row_or : UserApiKey → Result (Option UserApiKey) → UserApiKey
row_or default (ok (some row)) = row
row_or default r = default

only_row :
    (x row : UserApiKey) (xs : List UserApiKey) → one_or_none (x ∷ xs) ≡ ok (some row) → x ≡ row
unfolding row_or
only_row x row [] h = ap (row_or x) h
only_row x row (y ∷ xs) h = absurd (ground arith)

passes-found :
    (q : UserApiKey → Bool) (row : UserApiKey) (rows : List UserApiKey)
    → one_or_none (filter q rows) ≡ ok (some row)
    → q row ≡ true
passes-found q row [] h = absurd (ground arith)
passes-found q row (r ∷ rows) h = elim (Bool-cases (q r)) [
  | inl passes ↦ subst (λ x. q x ≡ true) (only_row r row (filter q rows) (rw passes at h)) passes
  | inr fails ↦ passes-found q row rows (rw fails at h)
]

is_for-rekeyed :
    (now : ℕ) (encrypted : EncryptedApiKey) (user user' : String) (provider provider' : Provider)
    (r : UserApiKey)
    → is_for user' provider' (if is_for user provider r then rekey now encrypted r else r)
      ≡ is_for user' provider' r
unfolding rekey
is_for-rekeyed now encrypted user user' provider provider' r =
    elim (Bool-cases (is_for user provider r)) [
      | inl mine ↦ rw mine (unfold is_for in refl)
      | inr other ↦ rw other refl
    ]

lookup-rekey_row :
    (now : ℕ) (encrypted : EncryptedApiKey) (user user' : String) (provider provider' : Provider)
    (rows : List UserApiKey)
    → lookup user' provider' (rekey_row now encrypted user provider rows)
      ≡ map_found
          (λ r. if is_for user provider r then rekey now encrypted r else r)
          (lookup user' provider' rows)
unfolding lookup rekey_row
lookup-rekey_row now encrypted user user' provider provider' rows =
    rw
      (filter-map (is_for user' provider')
        (λ r. if is_for user provider r then rekey now encrypted r else r) rows
        (is_for-rekeyed now encrypted user user' provider provider'))
      (one_or_none-map _ _)

-- The lookups of one user and provider, in whatever words, agree.
lookup-alike :
    (user user' : String) (provider provider' : Provider) (rows : List UserApiKey)
    → ((user == user') && same provider provider') ≡ true
    → lookup user' provider' rows ≡ lookup user provider rows
unfolding lookup is_for same
lookup-alike user user' provider provider' rows alike =
    ap one_or_none (filter_cong _ _ rows (λ r. ground (arith, eq→path user user', alike)))

is_for-apart :
    (user user' : String) (provider provider' : Provider) (r : UserApiKey)
    → ((user == user') && same provider provider') ≡ false
    → is_for user' provider' r ≡ true
    → is_for user provider r ≡ false
unfolding is_for same
is_for-apart user user' provider provider' r apart mine =
    ground (arith, eq→path r.user_id user', eq→path r.user_id user, eq_refl user')

-- The key of a row that was just encrypted.
reveal_key :
    (crypto : Crypto) (secret salt random plaintext : String) (row : UserApiKey)
    → IsCrypto crypto
    → (secret == "") ≡ false
    → row.encrypted_key ≡ crypto.encrypt (crypto.derive secret salt) random plaintext
    → row.salt ≡ crypto.hex salt
    → reveal crypto secret (some row) ≡ ok (some plaintext)
unfolding reveal decrypt_api_key derive_fernet_key
reveal_key crypto secret salt random plaintext row law given e s =
    let key = crypto.derive secret salt in
    rw
      (
        s,
        law.fromhex-hex salt,
        given,
        e,
        law.decrypt-encrypt key random plaintext,
        reveal,
        decrypt_api_key,
        derive_fernet_key,
      )
      refl

abbrev encrypted_with : Crypto → String → String → String → String → EncryptedApiKey
encrypted_with crypto secret salt random plaintext = record {
  encrypted_key = crypto.encrypt (crypto.derive secret salt) random plaintext;
  salt_hex = crypto.hex salt;
}

failed : (e : Error) (row : UserApiKey) → ◌≡◌ {A = Result UserApiKey} (err e) (ok row) → ⊥
failed e row h = ground arith

module _ (crypto : Crypto) (law : IsCrypto crypto) (secret : String)
    (given : (secret == "") ≡ false) (salt random api_key : String) (now : ℕ) (user user' : String)
    (provider provider' : Provider) (rows : List UserApiKey) where
  encrypted : EncryptedApiKey
  encrypted = encrypted_with crypto secret salt random api_key

  read_back : Result (Option String)
  read_back =
      if (user == user') && same provider provider'
      then ok (some api_key)
      else get_user_api_key crypto secret user' provider' rows

  -- What is read back in a table, by what the lookup in it finds.
  read_found :
      (table : List UserApiKey) (found : Result (Option UserApiKey))
      → lookup user' provider' table ≡ found
      → get_user_api_key crypto secret user' provider' table
        ≡ elim found [ err e ↦ err e | ok row ↦ reveal crypto secret row ]
  unfolding get_user_api_key
  read_found table found is = rw (is, get_user_api_key) refl

  read_like :
      (table : List UserApiKey)
      → lookup user' provider' table ≡ lookup user' provider' rows
      → get_user_api_key crypto secret user' provider' table
        ≡ get_user_api_key crypto secret user' provider' rows
  unfolding get_user_api_key
  read_like table e = rw (e, get_user_api_key) refl

  rekeyed :
      (x : UserApiKey)
      → lookup user provider rows ≡ ok (some x)
      → get_user_api_key crypto secret user' provider' (rekey_row now encrypted user provider rows)
        ≡ read_back
  unfolding encrypted read_back map_found
  rekeyed x is =
      let g : UserApiKey → UserApiKey =
        λ r. if is_for user provider r then rekey now encrypted r else r in
      elim (Bool-cases ((user == user') && same provider provider')) [
        | inl alike ↦ rw alike (
            read_found _ (ok (some (g x))) (
              lookup-rekey_row now encrypted user user' provider provider' rows
              ∙ ap (map_found g) (lookup-alike user user' provider provider' rows alike ∙ is))
            ∙ rw (passes-found (is_for user provider) x rows (unfold lookup in is)) (
                reveal_key crypto secret salt random api_key (rekey now encrypted x) law given
                  (unfold rekey in refl) (unfold rekey in refl)))
        | inr apart ↦ rw apart (
            read_like _ (
              lookup-rekey_row now encrypted user user' provider provider' rows
              ∙ unfold lookup in
                (sym (one_or_none-map g (filter (is_for user' provider') rows))
                  ∙ ap one_or_none (
                      map-filter_other (is_for user provider) (is_for user' provider')
                        (rekey now encrypted) rows
                        (λ r. is_for-apart user user' provider provider' r apart)))))
      ]

  added :
      (new_id : String)
      → lookup user provider rows ≡ ok none
      → get_user_api_key crypto secret user' provider'
          (rows ++ (new_row new_id now user provider encrypted ∷ []))
        ≡ read_back
  unfolding encrypted read_back
  added new_id is =
      let row = new_row new_id now user provider encrypted in
      elim (Bool-cases ((user == user') && same provider provider')) [
        | inl alike ↦ rw alike (
            read_found (rows ++ (row ∷ [])) (ok (some row)) (
              unfold lookup in
              unfold is_for in
              unfold new_row in
              one_new (is_for user' provider') rows row
                (lookup-alike user user' provider provider' rows alike ∙ is) alike)
            ∙ reveal_key crypto secret salt random api_key row law given (unfold new_row in refl)
                (unfold new_row in refl))
        | inr apart ↦ rw apart (
            read_like (rows ++ (row ∷ [])) (
              unfold lookup in
              unfold is_for in
              unfold new_row in
              ap one_or_none (filter-unmatched (is_for user' provider') row rows apart)))
      ]

  stored :
      (new_id : String) (row : UserApiKey) (after : List UserApiKey)
      (found : Result (Option UserApiKey))
      → lookup user provider rows ≡ found
      → store new_id now user provider encrypted found rows ≡ (ok row, after)
      → get_user_api_key crypto secret user' provider' after ≡ read_back
  unfolding store
  stored new_id row after (err e) is h = absurd (failed e row (ap (λ r. r.0) h))
  stored new_id row after (ok (some x)) is h =
      subst (λ t. get_user_api_key crypto secret user' provider' t ≡ read_back) (ap (λ r. r.1) h)
        (rekeyed x is)
  stored new_id row after (ok none) is h =
      elim (Bool-cases (is_some (get_row UserApiKey.id new_id rows))) [
        | inl taken ↦ absurd (failed integrity_error row (ap (λ r. r.0) (rw taken at h)))
        | inr free ↦
            subst (λ t. get_user_api_key crypto secret user' provider' t ≡ read_back)
              (ap (λ r. r.1) (rw free at h)) (added new_id is)
      ]

-- With a cipher that decrypts what it encrypted: after a user's key for a provider was stored, that
-- user reads that key for that provider. Every other reading, of another user or for another
-- provider, gives what it gave before.
pub get_user_api_key-set_user_api_key :
    (crypto : Crypto) (secret salt random new_id : String) (now : ℕ) (user user' : String)
    (provider provider' : Provider) (api_key : String) (rows after : List UserApiKey)
    (row : UserApiKey)
    → IsCrypto crypto
    → set_user_api_key crypto secret salt random new_id now user provider api_key rows
      ≡ (ok row, after)
    → get_user_api_key crypto secret user' provider' after ≡ (
        if (user == user') && same provider provider'
        then ok (some api_key)
        else get_user_api_key crypto secret user' provider' rows)
unfolding set_user_api_key encrypt_api_key derive_fernet_key
get_user_api_key-set_user_api_key crypto secret salt random new_id now user user' provider provider'
      api_key rows after row law h =
    elim (Bool-cases (secret == "")) [
      | inl missing ↦ absurd (failed _ row (ap (λ r. r.0) (rw (missing, set_user_api_key) at h)))
      | inr given ↦
          unfold read_back encrypted in
          stored crypto law secret given salt random api_key now user user' provider provider' rows
            new_id row after (lookup user provider rows) refl (rw (given, set_user_api_key) at h)
    ]
