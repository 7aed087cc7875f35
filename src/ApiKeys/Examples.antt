-- ===== src/ApiKeys/Examples.antt =====
-- Two keys of one user under a cipher that puts the key before the text.
use wikimind.Prelude.{◌≡◌, refl, some, [], ◌∷◌, ok, get_row, true, delete_row}
use wikimind.Router.{openai, same}
use wikimind.ApiKeys.{UserApiKey, Crypto, set_user_api_key, get_user_api_key, delete_user_api_key}
use wikimind.ApiKeys.Storage.{IsCrypto, get_user_api_key-set_user_api_key}

-- A cipher that keeps the text.
abbrev crypto : Crypto
crypto = record {
  derive = λ secret salt. salt;
  encrypt = λ key random text. text;
  decrypt = λ key text. some text;
  hex = λ salt. salt;
  fromhex = λ text. some text;
}

crypto-IsCrypto : IsCrypto crypto
crypto-IsCrypto = record { decrypt-encrypt = λ key random text. refl; fromhex-hex = λ salt. refl }

abbrev first : UserApiKey
first = record {
  id = "k1";
  user_id = "u1";
  provider = openai;
  encrypted_key = "sk-1";
  salt = "s1";
  created_at = 1;
  updated_at = 1;
}

abbrev again : UserApiKey
again = record first { encrypted_key = "sk-2"; salt = "s2"; updated_at = 5 }

replaced :
    set_user_api_key crypto "secret" "s2" "r" "k2" 5 "u1" openai "sk-2" (first ∷ [])
    ≡ (ok again, again ∷ [])
unfolding set_user_api_key get_row same
replaced = refl

get_user_api_key-set_user_api_key_example :
    get_user_api_key crypto "secret" "u1" openai (again ∷ []) ≡ ok (some "sk-2")
unfolding same
get_user_api_key-set_user_api_key_example =
    get_user_api_key-set_user_api_key crypto "secret" "s2" "r" "k2" 5 "u1" "u1" openai openai "sk-2"
      (first ∷ []) (again ∷ []) again crypto-IsCrypto replaced

deleted : delete_user_api_key "u1" openai (again ∷ []) ≡ (ok true, [])
unfolding delete_user_api_key get_row same delete_row
deleted = refl
