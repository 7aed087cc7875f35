-- ===== src/Users/Provisioning.antt =====
-- services/user.py: the account of an OAuth profile, of a JWT, and of a magic link's email. `split`
-- is the part of an email before its first `@`; new ids and the time are arguments.
use wikimind.Prelude.{
  ℕ, String, ◌==◌, ◌+++◌, Bool, ◌&&◌, ◌||◌, Option, none, some, List, [], ◌∷◌, ◌++◌, filter, any,
  truthy, if◌then◌else◌, get_row, update_row, is_some, Result, ok, err, integrity_error, Action,
  one_or_none,
}

pub record User : Type 0 where
  pub id : String
  pub email : String
  pub name : Option String
  pub avatar_url : Option String
  pub auth_provider : String
  pub auth_provider_id : String
  pub updated_at : ℕ

pub record OAuthUserInfo : Type 0 where
  pub id : String
  pub email : Option String
  pub name : Option String
  pub login : Option String
  pub picture : Option String
  pub avatar_url : Option String

-- `a or b`
unfoldable pub or : Option String → Option String → Option String
or a b = elim (truthy a) [ none ↦ b | some t ↦ some t ]

-- The name and the avatar, as the provider spells them.
unfoldable pub display_of : String → OAuthUserInfo → Option String × Option String
unfolding or
display_of provider info =
    if provider == "google"
    then (info.name, info.picture)
    else (or info.name info.login, info.avatar_url)

unfoldable pub has_identity : String → String → User → Bool
has_identity provider provider_id u =
    u.auth_provider == provider && u.auth_provider_id == provider_id

unfoldable pub has_email : String → User → Bool
has_email email u = u.email == email

-- `if not user and email`: the second lookup.
unfoldable pub by_email : Option String → List User → Result (Option User)
unfolding has_email
by_email none users = ok none
by_email (some email) users = one_or_none (filter (has_email email) users)

unfoldable pub or_by_email : Option String → List User → Result (Option User) → Result (Option User)
unfolding by_email
or_by_email email users (err e) = err e
or_by_email email users (ok (some user)) = ok (some user)
or_by_email email users (ok none) = by_email email users

unfoldable pub find_user : String → OAuthUserInfo → List User → Result (Option User)
unfolding or_by_email has_identity
find_user provider info users =
    or_by_email (truthy info.email) users
      (one_or_none (filter (has_identity provider info.id) users))

unfoldable pub email_or_made_up : String → OAuthUserInfo → String
email_or_made_up provider info = elim (truthy info.email) [
  | none ↦ provider +++ ":" +++ info.id +++ "@noemail"
  | some email ↦ email
]

-- A new row, against the primary key and the unique email.
unfoldable pub insert_user : User → Action (List User) User
unfolding has_email
insert_user user users =
    if is_some (get_row User.id user.id users) || any (has_email user.email) users
    then (err integrity_error, users)
    else (ok user, users ++ (user ∷ []))

unfoldable pub refresh : ℕ → Option String × Option String → User → User
refresh now display u = record u { name = display.0; avatar_url = display.1; updated_at = now }

unfoldable pub new_row : String → OAuthUserInfo → String → ℕ → User
unfolding display_of email_or_made_up
new_row provider info new_id now =
    let display = display_of provider info in
    record {
      id = new_id;
      email = email_or_made_up provider info;
      name = display.0;
      avatar_url = display.1;
      auth_provider = provider;
      auth_provider_id = info.id;
      updated_at = now;
    }

unfoldable pub save_profile :
    String → ℕ → String → OAuthUserInfo → Result (Option User) → Action (List User) User
unfolding insert_user refresh display_of new_row
save_profile new_id now provider info (err e) users = (err e, users)
save_profile new_id now provider info (ok (some user)) users =
    let display = display_of provider info in
    (ok (refresh now display user), update_row User.id user.id (refresh now display) users)
save_profile new_id now provider info (ok none) users =
    insert_user (new_row provider info new_id now) users

unfoldable pub upsert_oauth_user : String → ℕ → String → OAuthUserInfo → Action (List User) User
unfolding find_user save_profile
upsert_oauth_user new_id now provider info users =
    save_profile new_id now provider info (find_user provider info users) users

unfoldable pub get_or_create : ℕ → String → Option String → Action (List User) User
unfolding insert_user
get_or_create now user_id email users = elim (get_row User.id user_id users) [
  | some user ↦ (ok user, users)
  | none ↦
      insert_user
        (record {
          id = user_id;
          email = elim (truthy email) [ none ↦ user_id +++ "@jwt.local" | some text ↦ text ];
          name = some user_id;
          avatar_url = none;
          auth_provider = "jwt";
          auth_provider_id = user_id;
          updated_at = now;
        })
        users
]

unfoldable pub provide :
    (String → String) → String → ℕ → String → Result (Option User) → Action (List User) User
unfolding insert_user
provide split new_id now email (err e) users = (err e, users)
provide split new_id now email (ok (some user)) users = (ok user, users)
provide split new_id now email (ok none) users =
    insert_user
      (record {
        id = new_id;
        email = email;
        name = some (split email);
        avatar_url = none;
        auth_provider = "magic_link";
        auth_provider_id = email;
        updated_at = now;
      })
      users

unfoldable pub get_or_create_by_email :
    (String → String) → String → ℕ → String → Action (List User) User
unfolding provide has_email
get_or_create_by_email split new_id now email users =
    provide split new_id now email (one_or_none (filter (has_email email) users)) users
