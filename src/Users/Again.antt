-- ===== src/Users/Again.antt =====
-- services/user.py `upsert_oauth_user`: a profile has one account.
use wikimind.Prelude.{
  length-update_row, ℕ, String, ◌==◌, ◌≡◌, refl, sym, ap, ◌∙◌, subst, Bool, true, ◌||◌, Option,
  none, some, List, [], ◌∷◌, ◌++◌, map, filter, any, length, truthy, get_row, update_row, is_some,
  Result, ok, err, integrity_error, one_or_none, one_new, arith, eq_refl, Bool-cases, inl, inr,
}
use wikimind.Users.Provisioning.{
  User, OAuthUserInfo, display_of, has_identity, has_email, by_email, or_by_email, find_user,
  new_row, insert_user, refresh, save_profile, upsert_oauth_user,
}

-- The ids of the rows that pass a test.
ids : (User → Bool) → List User → List String
ids p users = map User.id (filter p users)

ids-refreshed :
    (p : User → Bool) (k : String) (f : User → User) (users : List User)
    → ((u : User) → p (f u) ≡ p u)
    → ((u : User) → (f u).id ≡ u.id)
    → ids p (update_row User.id k f users) ≡ ids p users
unfolding ids update_row
ids-refreshed p k f [] same kept = refl
ids-refreshed p k f (u ∷ users) same kept = elim (Bool-cases (u.id == k)) [
  | inl found ↦ elim (Bool-cases (p u)) [
    | inl passes ↦ rw (found, same u, passes, kept u) refl
    | inr fails ↦ rw (found, same u, fails) refl
  ]
  | inr other ↦ elim (Bool-cases (p u)) [
    | inl passes ↦ rw (other, passes, ids-refreshed p k f users same kept) refl
    | inr fails ↦ rw (other, fails, ids-refreshed p k f users same kept) refl
  ]
]

-- Rows with the same ids are found alike.
one_by_ids :
    (us vs : List User) (u : User)
    → map User.id us ≡ map User.id vs
    → one_or_none us ≡ ok (some u)
    → (v : User) × (one_or_none vs ≡ ok (some v)) × (v.id ≡ u.id)
one_by_ids [] vs u same h = absurd (ground arith)
one_by_ids (x ∷ y ∷ us) vs u same h = absurd (ground arith)
one_by_ids (x ∷ []) [] u same h = absurd (ground arith)
one_by_ids (x ∷ []) (v ∷ w ∷ vs) u same h = absurd (ground arith)
one_by_ids (x ∷ []) (v ∷ []) u same h = (v, refl, ground (arith, same, h))

none_by_ids :
    (us vs : List User)
    → map User.id us ≡ map User.id vs
    → one_or_none us ≡ ok none
    → one_or_none vs ≡ ok none
none_by_ids (x ∷ []) vs same h = absurd (ground arith)
none_by_ids (x ∷ y ∷ us) vs same h = absurd (ground arith)
none_by_ids [] (v ∷ vs) same h = absurd (ground arith)
none_by_ids [] [] same h = refl

found_by_email :
    (email : Option String) (users users' : List User) (u : User)
    → ((text : String) → ids (has_email text) users ≡ ids (has_email text) users')
    → by_email email users ≡ ok (some u)
    → (v : User) × (by_email email users' ≡ ok (some v)) × (v.id ≡ u.id)
unfolding by_email ids
found_by_email none users users' u same h = absurd (ground arith)
found_by_email (some text) users users' u same h = one_by_ids _ _ u (same text) h

-- Whoever is found in one table is found in another with the same ids.
found_again :
    (provider : String) (info : OAuthUserInfo) (users users' : List User) (u : User)
    (first : Result (Option User))
    → ids (has_identity provider info.id) users ≡ ids (has_identity provider info.id) users'
    → ((text : String) → ids (has_email text) users ≡ ids (has_email text) users')
    → one_or_none (filter (has_identity provider info.id) users) ≡ first
    → or_by_email (truthy info.email) users first ≡ ok (some u)
    → (v : User) × (find_user provider info users' ≡ ok (some v)) × (v.id ≡ u.id)
unfolding find_user or_by_email ids
found_again provider info users users' u (err e) same mails is h = absurd (ground arith)
found_again provider info users users' u (ok (some x)) same mails is h =
    let (v, e, i) = one_by_ids _ _ u same (is ∙ h) in (v, rw e refl, i)
found_again provider info users users' u (ok none) same mails is h =
    let (v, e, i) = found_by_email (truthy info.email) users users' u mails h in
    (v, rw (none_by_ids _ _ same is) e, i)

nobody :
    (email : Option String) (users : List User) (first : Result (Option User))
    → or_by_email email users first ≡ ok none
    → first ≡ ok none
unfolding or_by_email
nobody email users (err e) h = absurd (ground arith)
nobody email users (ok (some x)) h = absurd (ground arith)
nobody email users (ok none) h = refl

new_found :
    (provider : String) (info : OAuthUserInfo) (users : List User) (u : User)
    → find_user provider info users ≡ ok none
    → has_identity provider info.id u ≡ true
    → find_user provider info (users ++ (u ∷ [])) ≡ ok (some u)
unfolding find_user or_by_email
new_found provider info users u h same =
    rw (one_new (has_identity provider info.id) users u (nobody (truthy info.email) users _ h) same)
      refl

-- The second login finds the account of the first.
abbrev IsSame : String → OAuthUserInfo → String → ℕ → User → List User → Type 0
IsSame provider info new_id now user after =
    (again : User) × (last : List User) × (upsert_oauth_user new_id now provider info after
      ≡ (ok again, last))
    × (again.id ≡ user.id)
    × (length last ≡ length after)

IsSame-found :
    (provider : String) (info : OAuthUserInfo) (new_id : String) (now : ℕ) (user v : User)
    (after : List User)
    → find_user provider info after ≡ ok (some v)
    → v.id ≡ user.id
    → IsSame provider info new_id now user after
unfolding upsert_oauth_user save_profile refresh
IsSame-found provider info new_id now user v after e i = (
  refresh now (display_of provider info) v,
  update_row User.id v.id (refresh now (display_of provider info)) after,
  rw e refl,
  i,
  length-update_row User.id v.id (refresh now (display_of provider info)) after,
)

account_id : Result User → String
account_id (ok u) = u.id
account_id (err e) = ""

-- An insertion that succeeds appends the row.
appended :
    (u user : User) (users after : List User)
    → insert_user u users ≡ (ok user, after)
    → (users ++ (u ∷ []) ≡ after) × (u.id ≡ user.id)
unfolding insert_user account_id
appended u user users after h =
    elim (Bool-cases (is_some (get_row User.id u.id users) || any (has_email u.email) users)) [
      | inl taken ↦ absurd (refused (ap (λ r. r.0) (rw taken at h)))
      | inr free ↦ (ap (λ r. r.1) (rw free at h), ap (λ r. account_id r.0) (rw free at h))
    ]
  where
    refused : ◌≡◌ {A = Result User} (err integrity_error) (ok user) → ⊥
    refused e = ground arith

IsSame-save_profile :
    (provider : String) (info : OAuthUserInfo) (first second : String) (now later : ℕ)
    (users after : List User) (user : User) (found : Result (Option User))
    → find_user provider info users ≡ found
    → save_profile first now provider info found users ≡ (ok user, after)
    → IsSame provider info second later user after
unfolding save_profile account_id has_identity has_email refresh find_user new_row
IsSame-save_profile provider info first second now later users after user (err e) is h =
    absurd (refused (ap (λ r. r.0) h))
  where
    refused : ◌≡◌ {A = Result User} (err e) (ok user) → ⊥
    refused x = ground arith
IsSame-save_profile provider info first second now later users after user (ok (some u)) is h =
    let f : User → User = refresh now (display_of provider info) in
    let (v, e, i) =
      found_again provider info users (update_row User.id u.id f users) u _
        (sym (ids-refreshed (has_identity provider info.id) u.id f users (λ x. refl) (λ x. refl)))
        (λ text. sym (ids-refreshed (has_email text) u.id f users (λ x. refl) (λ x. refl))) refl
        is in
    subst (IsSame provider info second later user) (ap (λ r. r.1) h) (
      IsSame-found provider info second later user v (update_row User.id u.id f users) e
        (i ∙ ap (λ r. account_id r.0) h))
IsSame-save_profile provider info first second now later users after user (ok none) is h =
    let (e, i) = appended (new_row provider info first now) user users after h in
    subst (IsSame provider info second later user) e (
      IsSame-found provider info second later user _ _
        (new_found provider info users (new_row provider info first now) is
          (rw (eq_refl provider, eq_refl info.id) refl))
        i)

-- An OAuth login that succeeds, followed by another with the same profile from the same provider:
-- the second one succeeds too, finds the account of the first, and adds none.
pub upsert_oauth_user-again :
    (provider : String) (info : OAuthUserInfo) (first second : String) (now later : ℕ)
    (users after : List User) (user : User)
    → upsert_oauth_user first now provider info users ≡ (ok user, after)
    → (again : User) × (last : List User) × (upsert_oauth_user second later provider info after
        ≡ (ok again, last))
      × (again.id ≡ user.id)
      × (length last ≡ length after)
unfolding upsert_oauth_user
upsert_oauth_user-again provider info first second now later users after user =
    IsSame-save_profile provider info first second now later users after user _ refl
