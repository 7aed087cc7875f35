-- ===== src/Users/Examples.antt =====
-- A codec that escapes colons, and links that it makes.
use Prim.Native.Char.{Char}
use Prim.Native.String.{[], ◌∷◌}
use mathlib.Core.List.{List}
use mathlib.Core.Option
use wikimind.Prelude.{
  length, get_row, pos, String, ◌==◌, ◌+++◌, value, value-decimal, ◌≡◌, refl, ap, Bool, true, false,
  Option, none, some, if◌then◌else◌, ok, eq→path, Bool-cases, inl, inr,
}
use wikimind.Users.MagicLinks.{Codec, is_colon, create_magic_link_token, verify_magic_link_token}
use wikimind.Users.Provisioning.{User, OAuthUserInfo, upsert_oauth_user, get_or_create_by_email}
use wikimind.Users.Again.{upsert_oauth_user-again}
use wikimind.Users.Deletion.{Owned, Db, delete_account, IsLinked, IsLinked-delete_account}
use wikimind.Users.Links.{IsCodec, colon_free, verify_magic_link_token-create_magic_link_token}

abbrev escape : Char
escape = "a"

abbrev colon : Char
colon = ":"

abbrev colon_mark : Char
colon_mark = "b"

head : String → Char
head [] = escape
head (c ∷ s) = c

is : Char → Char → Bool
is c d = (c ∷ []) == (d ∷ [])

is→path : (c d : Char) → is c d ≡ true → c ≡ d
unfolding is head
is→path c d h = ap head (eq→path (c ∷ []) (d ∷ []) h)

encode : String → String
unfolding is
encode [] = []
encode (c ∷ s) =
    if is c colon
    then escape ∷ colon_mark ∷ encode s
    else if is c escape
    then escape ∷ escape ∷ encode s
    else c ∷ encode s

-- The flag is set behind an escape.
decode_from : Bool → String → Option String
unfolding is
decode_from true [] = none
decode_from true (d ∷ s) =
    Option.map (λ t. (if is d escape then escape else colon) ∷ t) (decode_from false s)
decode_from false [] = some []
decode_from false (c ∷ s) =
    if is c escape then decode_from true s else Option.map (λ t. c ∷ t) (decode_from false s)

decode-encode : (s : String) → decode_from false (encode s) ≡ some s
unfolding decode_from encode
decode-encode [] = refl
decode-encode (c ∷ s) = elim (Bool-cases (is c colon)) [
  | inl found ↦ rw (found, decode_from, decode-encode s, is→path c colon found) refl
  | inr other ↦ elim (Bool-cases (is c escape)) [
    | inl found ↦ rw (other, found, decode_from, decode-encode s, is→path c escape found) refl
    | inr plain ↦ rw (other, plain, decode_from, decode-encode s) (rw plain refl)
  ]
]

encode-colon_free : (s : String) → colon_free (encode s) ≡ true
unfolding colon_free encode is is_colon
encode-colon_free [] = refl
encode-colon_free (c ∷ s) = elim (Bool-cases (is c colon)) [
  | inl found ↦ rw (found, encode-colon_free s) refl
  | inr other ↦ elim (Bool-cases (is c escape)) [
    | inl found ↦ rw (other, found, encode-colon_free s) refl
    | inr plain ↦ rw (other, plain, colon_free, encode-colon_free s) (rw other refl)
  ]
]

codec : Codec
unfolding encode decode_from
codec = record {
  hmac = λ key text. key +++ text;
  encode = encode;
  decode = decode_from false;
  int = λ text. some (pos (value text 0));
}

codec-IsCodec : IsCodec codec
unfolding codec
codec-IsCodec = record {
  decode-encode = decode-encode;
  encode-colon_free = encode-colon_free;
  int-decimal = λ n. rw value-decimal refl;
}

verify_magic_link_token-create_magic_link_token_example :
    verify_magic_link_token codec "key" 900 1500
      (create_magic_link_token codec "key" 1000 "ann:home@b.org")
    ≡ ok "ann:home@b.org"
verify_magic_link_token-create_magic_link_token_example =
    verify_magic_link_token-create_magic_link_token codec "key" "ann:home@b.org" 900 1000 1500
      codec-IsCodec

abbrev ann : OAuthUserInfo
ann = record {
  id = "42";
  email = some "ann@home.org";
  name = none;
  login = some "ann";
  picture = none;
  avatar_url = none;
}

abbrev ann_account : User
ann_account = record {
  id = "u1";
  email = "ann@home.org";
  name = some "ann";
  avatar_url = none;
  auth_provider = "github";
  auth_provider_id = "42";
  updated_at = 5;
}

first_login :
    upsert_oauth_user "u1" 5 "github" ann List.[] ≡ (ok ann_account, List.◌∷◌ ann_account List.[])
unfolding upsert_oauth_user get_row
first_login = refl

upsert_oauth_user-again_example :
    (again : User) × (last : List User) × (upsert_oauth_user "u2" 9 "github" ann
        (List.◌∷◌ ann_account List.[])
      ≡ (ok again, last))
    × (again.id ≡ "u1")
    × (length last ≡ 1)
upsert_oauth_user-again_example =
    upsert_oauth_user-again "github" ann "u1" "u2" 5 9 List.[] (List.◌∷◌ ann_account List.[])
      ann_account first_login

-- A magic link to the email of an account that GitHub made.
by_link :
    get_or_create_by_email (λ email. "ann") "u2" 9 "ann@home.org" (List.◌∷◌ ann_account List.[])
    ≡ (ok ann_account, List.◌∷◌ ann_account List.[])
unfolding get_or_create_by_email
by_link = refl

abbrev owned : String → String → Owned
owned id user_id = record { id = id; user_id = user_id }

-- Two users with an article each, and one finding about each of them.
abbrev two_users : Db
two_users = record {
  users = List.◌∷◌ "u1" (List.◌∷◌ "u2" List.[]);
  articles = List.◌∷◌ (owned "a1" "u1") (List.◌∷◌ (owned "a2" "u2") List.[]);
  reports = List.◌∷◌ (owned "r1" "u1") (List.◌∷◌ (owned "r2" "u2") List.[]);
  conversations = List.[];
  article_concepts = List.[];
  article_sources = List.[];
  contradictions = List.[];
  orphans =
      List.◌∷◌ (record { report_id = "r1"; article_id = "a1" })
        (List.◌∷◌ (record { report_id = "r2"; article_id = "a2" }) List.[]);
  structural = List.[];
  queries = List.[];
  backlinks = List.[];
  sources = List.[];
  concepts = List.[];
  jobs = List.[];
  cost_logs = List.[];
  sync_logs = List.[];
  api_keys = List.[];
  preferences = List.[];
}

two_users-IsLinked : IsLinked two_users
two_users-IsLinked = record {
  concepts_linked = tt;
  sources_linked = tt;
  first_linked = tt;
  second_linked = tt;
  contradictions_reported = tt;
  orphans_linked = (refl, (refl, tt));
  orphans_reported = (refl, (refl, tt));
  structural_linked = tt;
  structural_reported = tt;
  queries_linked = tt;
}

IsLinked-delete_account_example : IsLinked (delete_account none "u1" two_users).1
IsLinked-delete_account_example = IsLinked-delete_account none "u1" two_users two_users-IsLinked

one_finding_left :
    (delete_account none "u1" two_users).1.orphans
    ≡ List.◌∷◌ (record { report_id = "r2"; article_id = "a2" }) List.[]
unfolding delete_account
one_finding_left = refl
