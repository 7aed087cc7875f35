-- ===== src/Wikilinks.antt =====
-- engine/wikilink_resolver.py: the titles that a language model suggests, matched to a user's
-- articles. Strings are lowered, stripped and normalized by functions that are given.
pub mod Matching
pub mod Resolution
pub mod Ownership
mod Examples
use wikimind.Prelude.{
  sort_by, ℕ, String, ◌==◌, Bool, true, false, not, ◌&&◌, Option, none, some, List, [], ◌∷◌, ◌++◌,
  filter, leb, if◌then◌else◌, is_some, get_row,
}

-- models/tables/wiki.py `Article`: the columns that the resolver reads.
pub record Article : Type 0 where
  pub id : String
  pub user_id : String
  pub title : String
  pub created_at : ℕ

pub record ResolvedBacklink : Type 0 where
  pub candidate_text : String
  pub target_id : String
  pub target_title : String
  pub relation_type : String

pub record ResolvedBacklinks : Type 0 where
  pub resolved : List ResolvedBacklink
  pub unresolved : List String

-- An item of the dictionaries `by_lower` and `by_normalized`.
pub record Titled : Type 0 where
  pub key : String
  pub article : Article

-- `.order_by(Article.created_at)`
unfoldable pub oldest_first : List Article → List Article
oldest_first = sort_by (λ a b. leb a.created_at b.created_at)

unfoldable pub is_excluded : Option String → Article → Bool
is_excluded none a = false
is_excluded (some id) a = a.id == id

-- The articles that a candidate may resolve to.
unfoldable pub all_articles : String → Option String → List Article → List Article
unfolding oldest_first is_excluded
all_articles user_id exclude_article_id table =
    filter (λ a. not (is_excluded exclude_article_id a))
      (oldest_first (filter (λ a. a.user_id == user_id) table))

-- `if key not in d: d[key] = article`
unfoldable pub add_first : String → Article → List Titled → List Titled
add_first key article dict =
    if is_some (get_row Titled.key key dict)
    then dict
    else dict ++ (record { key = key; article = article } ∷ [])

unfoldable pub article_in : Option Titled → Option Article
article_in none = none
article_in (some item) = some item.article

-- `d.get(key)`
unfoldable pub article_at : String → List Titled → Option Article
unfolding article_in
article_at key dict = article_in (get_row Titled.key key dict)

module _ (strip lower normalize_title : String → String) where
  -- `[c.strip() for c in candidates if c and c.strip()]`
  unfoldable pub cleaned : List String → List String
  cleaned [] = []
  cleaned (c ∷ cs) =
      let rest = cleaned cs in if not (c == "") && not (strip c == "") then strip c ∷ rest else rest

  unfoldable pub by_lower : List Article → List Titled → List Titled
  unfolding add_first
  by_lower [] dict = dict
  by_lower (a ∷ rest) dict = by_lower rest (add_first (lower a.title) a dict)

  unfoldable pub by_normalized : List Article → List Titled → List Titled
  unfolding add_first
  by_normalized [] dict = dict
  by_normalized (a ∷ rest) dict =
      by_normalized rest
        (if normalize_title a.title == "" then dict else add_first (normalize_title a.title) a dict)

  -- The second stage, with the first one's result.
  unfoldable pub or_normalized : Option Article → String → List Titled → Option Article
  unfolding article_at
  or_normalized (some target) candidate normalized = some target
  or_normalized none candidate normalized =
      if normalize_title candidate == ""
      then none
      else article_at (normalize_title candidate) normalized

  unfoldable pub target_of : List Titled → List Titled → String → Option Article
  unfolding article_at or_normalized
  target_of lowered normalized candidate =
      or_normalized (article_at (lower candidate) lowered) candidate normalized

  module _ (rel_map : String → Option String) where
    relation_or_default : Option String → String
    relation_or_default none = "references"
    relation_or_default (some r) = r

    unfoldable pub add_target : String → Article → List ResolvedBacklink → List ResolvedBacklink
    unfolding relation_or_default
    add_target candidate target resolved =
        if is_some (get_row ResolvedBacklink.target_id target.id resolved)
        then resolved
        else resolved
          ++ (record {
            candidate_text = candidate;
            target_id = target.id;
            target_title = target.title;
            relation_type = relation_or_default (rel_map (lower candidate));
          }
              ∷ [])

    unfoldable pub add_candidate : String → Option Article → ResolvedBacklinks → ResolvedBacklinks
    unfolding add_target
    add_candidate candidate none r = record r { unresolved = r.unresolved ++ (candidate ∷ []) }
    add_candidate candidate (some target) r = record r {
      resolved = add_target candidate target r.resolved;
    }

    unfoldable pub resolve_all :
        (String → Option Article) → List String → ResolvedBacklinks → ResolvedBacklinks
    unfolding add_candidate
    resolve_all find_target [] r = r
    resolve_all find_target (c ∷ cs) r =
        resolve_all find_target cs (add_candidate c (find_target c) r)

    unfoldable pub resolve_backlink_candidates :
        String → Option String → List Article → List String → ResolvedBacklinks
    unfolding cleaned all_articles by_lower by_normalized target_of resolve_all
    resolve_backlink_candidates user_id exclude_article_id table candidates =
        let articles = all_articles user_id exclude_article_id table in
        resolve_all (target_of (by_lower articles []) (by_normalized articles []))
          (cleaned candidates) (record { resolved = []; unresolved = [] })
