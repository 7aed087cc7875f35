-- ===== src/Taxonomy/Counts.antt =====
-- services/taxonomy.py `update_article_counts`: the articles of each concept, counted by slug.
use wikimind.Prelude.{
  ℕ, suc, ◌+◌, String, ◌==◌, ◌≡◌, refl, Bool, true, false, not, ◌&&◌, Option, none, some, List, [],
  ◌∷◌, map, count, filter, All, get_row, save_row, get_row-save_row, if◌then◌else◌, arith, eq_iff,
  Bool-cases, inl, inr,
}
use wikimind.Taxonomy.{Concept}

-- The columns of `Article` and `ArticleConcept` that the join reads.
pub record Article : Type 0 where
  pub id : String
  pub user_id : String
  pub page_type : String

pub record ArticleConcept : Type 0 where
  pub article_id : String
  pub concept_name : String

-- An item of the dictionary `counts`.
pub record SlugCount : Type 0 where
  pub slug : String
  pub articles : ℕ

-- The join's condition on the article of a row; a row without its article is not in the join.
is_source_of : String → Option Article → Bool
is_source_of user_id none = false
is_source_of user_id (some a) = a.page_type == "source" && a.user_id == user_id

unfoldable pub joined : String → List Article → List ArticleConcept → List ArticleConcept
unfolding is_source_of
joined user_id articles links =
    filter (λ l. is_source_of user_id (get_row Article.id l.article_id articles)) links

articles_in : Option SlugCount → ℕ
articles_in none = 0
articles_in (some row) = row.articles

-- `counts.get(name, 0)`
counted : List SlugCount → String → ℕ
unfolding articles_in
counted counts name = articles_in (get_row SlugCount.slug name counts)

module _ (slugify : String → String) where
  count_one : ArticleConcept → List SlugCount → List SlugCount
  unfolding counted
  count_one link counts =
      let normalized = slugify link.concept_name in
      if normalized == ""
      then counts
      else save_row SlugCount.slug
          (record { slug = normalized; articles = suc (counted counts normalized) }) counts

  count_all : List ArticleConcept → List SlugCount → List SlugCount
  unfolding count_one
  count_all [] counts = counts
  count_all (l ∷ ls) counts = count_all ls (count_one l counts)

  unfoldable pub update_article_counts :
      String → List Article → List ArticleConcept → List Concept → List Concept
  unfolding joined count_all counted
  update_article_counts user_id articles links concepts =
      let counts = count_all (joined user_id articles links) [] in
      map
        (λ c.
          if c.user_id == user_id then record c { article_count = counted counts c.name } else c)
        concepts

  -- The link counts for the concept of that name.
  abbrev pub tags : String → ArticleConcept → Bool
  tags name link = not (slugify link.concept_name == "") && (slugify link.concept_name == name)

  counted-count_one :
      (l : ArticleConcept) (counts : List SlugCount) (name : String)
      → counted (count_one l counts) name
        ≡ (if tags name l then suc (counted counts name) else counted counts name)
  unfolding count_one counted articles_in
  counted-count_one l counts name = elim (Bool-cases (slugify l.concept_name == "")) [
    | inl empty ↦ rw empty refl
    | inr slug ↦ ground (
      arith,
      slug,
      get_row-save_row SlugCount.slug name
          (record {
            slug = slugify l.concept_name;
            articles = suc (counted counts (slugify l.concept_name));
          })
          counts,
      eq_iff (slugify l.concept_name) name,
    )
  ]

  counted-empty : (name : String) → counted [] name ≡ 0
  unfolding counted articles_in get_row
  counted-empty name = refl

  counted-count_all :
      (ls : List ArticleConcept) (counts : List SlugCount) (name : String)
      → counted (count_all ls counts) name ≡ count (tags name) ls + counted counts name
  unfolding count_all
  counted-count_all [] counts name = omega arith
  counted-count_all (l ∷ ls) counts name =
      ground
        (arith, counted-count_all ls (count_one l counts) name, counted-count_one l counts name)

  module _ (user_id : String) (articles : List Article) (links : List ArticleConcept) where
    -- The row's count is the number of the user's source articles that are linked to its name.
    abbrev pub IsCounted : Concept → Type 0
    IsCounted c =
        (c.user_id == user_id) ≡ true
        → c.article_count ≡ count (tags c.name) (joined user_id articles links)

    -- After an update, each of the user's concepts carries the number of links between the user's
    -- source articles and concept names with the same slug.
    pub update_article_counts_lem :
        (concepts : List Concept)
        → All IsCounted (update_article_counts user_id articles links concepts)
    unfolding update_article_counts counted articles_in
    update_article_counts_lem [] = tt
    update_article_counts_lem (c ∷ cs) = (
      elim (Bool-cases (c.user_id == user_id)) [
        | inl own ↦ rw own (λ _.
            let all_counted = counted-count_all (joined user_id articles links) [] c.name in
            omega (arith, all_counted, counted-empty c.name))
        | inr other ↦ rw other (λ own. absurd (ground (arith, other, own)))
      ],
      update_article_counts_lem cs,
    )
