-- ===== src/Compiler.antt =====
-- engine/compiler.py: the saving of a compiled article, `save_article` and `save_article_in_place`.
-- The language model's result is given, as are the page's text, the packages for slugs and JSON, and
-- the new article's id. Times and the compilation's counters are left out, as are the search index,
-- the confidence of the article, and what follows a save in the taxonomy, the log and the index page.
pub mod Relations
pub mod Claims
mod Examples
use wikimind.Prelude.{
  ℤ, pos, ℕ, String, ◌==◌, ◌+++◌, ◌+◌, ◌*◌, Bool, true, false, not, ◌&&◌, ◌||◌, Option, none, some,
  List, [], ◌∷◌, ◌++◌, map, filter, find, any, contains, count, length, leb, if◌then◌else◌, get_row,
  save_row, update_row, is_some, Result, ok, err, integrity_error, Action,
}
use wikimind.Wikilinks
use wikimind.Wikilinks.{ResolvedBacklink, ResolvedBacklinks, resolve_backlink_candidates}
use wikimind.Backlinks.{Backlink, RelationType, references}
use wikimind.Confidence.{compute_claim_confidence}
use wikimind.Slugs
use wikimind.Slugs.{generate_unique_slug}

pub data ConfidenceLevel : Type 0 where
  sourced mixed inferred opinion : ConfidenceLevel

pub record CompiledClaimDto : Type 0 where
  pub claim : String
  pub confidence : ConfidenceLevel
  pub subjects : List String
  pub predicate : Option String
  pub quote : Option String
  pub source_ids : List String
  pub source_span_ids : List String

pub record CompilationResult : Type 0 where
  pub title : String
  pub summary : String
  pub key_claims : List CompiledClaimDto
  pub concepts : List String
  pub backlink_suggestions : List String
  pub article_body : String

pub record Source : Type 0 where
  pub id : String
  pub user_id : String
  pub compiled : Bool

pub record Article : Type 0 where
  pub id : String
  pub slug : String
  pub title : String
  pub file_path : String
  pub summary : String
  pub confidence : ConfidenceLevel
  pub provider : Option String
  pub page_type : String
  pub user_id : String
  pub created_at : ℕ

pub record CompiledClaim : Type 0 where
  pub article_id : String
  pub user_id : String
  pub text : String
  pub subjects : List String
  pub predicate : Option String
  pub confidence_level : String
  pub confidence_score : ℕ
  pub quote : Option String
  pub source_ids : List String
  pub source_span_ids : List String

-- A row of `article_sources` or `article_concepts`: the article's id and the other key.
pub record Relation : Type 0 where
  pub article_id : String
  pub other : String

-- A file of the user's wiki.
pub record File : Type 0 where
  pub path : String
  pub content : String

pub record Db : Type 0 where
  pub articles : List Article
  pub sources : List Source
  pub article_sources : List Relation
  pub article_concepts : List Relation
  pub links : List Backlink
  pub claims : List CompiledClaim
  pub files : List File

-- What a compiler holds from the compilation, and the functions that it is given; `without_root`
-- removes the prefix of the wiki's root, which old rows have in their paths.
pub record Compiler : Type 0 where
  pub user_id : String
  pub last_provider_used : Option String
  pub last_typed_suggestions : String → Option String
  pub source_spans : List String
  pub slugify : String → String
  pub slug_text : Slugs.Text
  pub slug_max_attempts : ℕ
  pub strip : String → String
  pub lower : String → String
  pub normalize_title : String → String
  pub relation_type : String → Option RelationType
  pub without_root : String → String
  pub markdown : CompilationResult → Source → String → ConfidenceLevel → ResolvedBacklinks → String

unfoldable pub level_value : ConfidenceLevel → String
level_value sourced = "sourced"
level_value mixed = "mixed"
level_value inferred = "inferred"
level_value opinion = "opinion"

is_sourced : CompiledClaimDto → Bool
is_sourced c = elim c.confidence [ sourced ↦ true | _ ↦ false ]

-- `_overall_confidence`: the shares of 0.8 and 0.4 are compared as fractions.
unfoldable pub overall_confidence : CompilationResult → ConfidenceLevel
unfolding is_sourced
overall_confidence result =
    let n = length result.key_claims in
    let k = count is_sourced result.key_claims in
    if leb n 0
    then inferred
    else if leb (4 * n) (5 * k)
    then sourced
    else if leb (2 * n) (5 * k)
    then mixed
    else inferred

unfoldable pub belongs : String → Relation → Bool
belongs article_id r = r.article_id == article_id

-- `article.provider == provider`
same_provider : String → Article → Bool
same_provider provider a = elim a.provider [ none ↦ false | some p ↦ p == provider ]

-- `_find_article_for_source_and_provider`: the join runs over the articles.
pub find_article : Option String → String → Db → Option Article
unfolding same_provider
find_article none source_id db = none
find_article (some provider) source_id db =
    find
      (λ a.
        same_provider provider a
        && any (λ r. r.article_id == a.id && r.other == source_id) db.article_sources)
      db.articles

-- `_apply_article_fields`
unfoldable pub apply_article_fields : CompilationResult → String → Source → Article → Article
unfolding overall_confidence
apply_article_fields result relative_path source a = record a {
  title = result.title;
  summary = result.summary;
  confidence = overall_confidence result;
  file_path = relative_path;
  page_type = "source";
  user_id = source.user_id;
}

unfoldable pub drop_relations : String → List Relation → List Relation
unfolding belongs
drop_relations article_id rows = filter (λ r. not (belongs article_id r)) rows

-- `_clear_article_relations`: the outgoing links, the claims and the rows of the join tables.
unfoldable pub clear_article_relations : String → Db → Db
unfolding drop_relations
clear_article_relations article_id db = record db {
  links = filter (λ l. not (l.source_article_id == article_id)) db.links;
  claims = filter (λ c. not (c.article_id == article_id)) db.claims;
  article_concepts = drop_relations article_id db.article_concepts;
  article_sources = drop_relations article_id db.article_sources;
}

unfoldable pub clashes : Relation → Relation → Bool
clashes new r = r.article_id == new.article_id && r.other == new.other

-- Rows that are inserted one by one, unless one of them is there.
unfoldable pub insert_all : String → List String → List Relation → Option (List Relation)
unfolding clashes
insert_all article_id [] rows = some rows
insert_all article_id (x ∷ xs) rows =
    let new : Relation = record { article_id = article_id; other = x } in
    let later = insert_all article_id xs (rows ++ (new ∷ [])) in
    if any (clashes new) rows then none else later

-- `on_conflict_do_nothing`
insert_link : Backlink → List Backlink → List Backlink
insert_link new links =
    if any
      (λ l.
        l.source_article_id == new.source_article_id
        && l.target_article_id == new.target_article_id)
      links
    then links
    else links ++ (new ∷ [])

relation_or_references : Option RelationType → RelationType
relation_or_references none = references
relation_or_references (some r) = r

-- `_persist_resolved_backlinks`
pub persist_resolved_backlinks :
    Compiler → String → List ResolvedBacklink → List Backlink → List Backlink
unfolding insert_link relation_or_references
persist_resolved_backlinks compiler article_id [] links = links
persist_resolved_backlinks compiler article_id (rb ∷ rbs) links =
    persist_resolved_backlinks compiler article_id rbs (
      insert_link
        (record {
          source_article_id = article_id;
          target_article_id = rb.target_id;
          user_id = compiler.user_id;
          context = some rb.candidate_text;
          relation_type = relation_or_references (compiler.relation_type rb.relation_type);
        })
        links)

-- `dto.source_ids or [source.id]`
ids_or_source : List String → String → List String
ids_or_source [] source_id = source_id ∷ []
ids_or_source (i ∷ is) source_id = i ∷ is

-- A row of `_persist_claims`, with the spans that exist.
unfoldable pub claim_of : Compiler → String → Source → CompiledClaimDto → CompiledClaim
unfolding ids_or_source
claim_of compiler article_id source dto =
    let source_ids = ids_or_source dto.source_ids source.id in
    record {
      article_id = article_id;
      user_id = compiler.user_id;
      text = dto.claim;
      subjects = dto.subjects;
      predicate = dto.predicate;
      confidence_level = level_value dto.confidence;
      confidence_score =
          compute_claim_confidence compiler.lower (level_value dto.confidence)
            (pos (length source_ids));
      quote = dto.quote;
      source_ids = source_ids;
      source_span_ids = filter (contains compiler.source_spans) dto.source_span_ids;
    }

-- The session after the article and its source were committed: the rows of the join tables, which
-- are committed together, then links and claims.
pub populate :
    Compiler → CompilationResult → Source → Article → List ResolvedBacklink → Action Db Article
unfolding persist_resolved_backlinks
populate compiler result source article resolved db =
    elim (insert_all article.id (source.id ∷ []) db.article_sources) [
      | none ↦ (err integrity_error, db)
      | some article_sources ↦ elim (insert_all article.id result.concepts db.article_concepts) [
        | none ↦ (err integrity_error, db)
        | some article_concepts ↦ (
          ok article,
          record db {
            article_sources = article_sources;
            article_concepts = article_concepts;
            links = persist_resolved_backlinks compiler article.id resolved db.links;
            claims = db.claims ++ map (claim_of compiler article.id source) result.key_claims;
          },
        )
      ]
    ]

unfoldable pub mark_compiled : Source → Source
mark_compiled s = record s { compiled = true }

-- `source.status = COMPILED` and the first commit
commit_source : Source → Db → Db
unfolding mark_compiled
commit_source source db = record db {
  sources = update_row Source.id source.id mark_compiled db.sources;
}

wiki_article : Article → Wikilinks.Article
wiki_article a = record {
  id = a.id;
  user_id = a.user_id;
  title = a.title;
  created_at = a.created_at;
}

pub resolve : Compiler → CompilationResult → Option String → Db → ResolvedBacklinks
unfolding wiki_article
resolve compiler result exclude_article_id db =
    resolve_backlink_candidates compiler.strip compiler.lower compiler.normalize_title
      compiler.last_typed_suggestions compiler.user_id exclude_article_id
      (map wiki_article db.articles) result.backlink_suggestions

first_concept : List String → String
first_concept [] = "general"
first_concept (c ∷ cs) = c

-- The path of `_write_article_file`
pub relative_path : Compiler → CompilationResult → String → String
unfolding first_concept
relative_path compiler result slug =
    compiler.slugify (first_concept result.concepts) +++ ("/" +++ (slug +++ ".md"))

pub write_article_file :
    Compiler → CompilationResult → Source → String → ResolvedBacklinks → Db → Db
unfolding relative_path
write_article_file compiler result source slug resolved db = record db {
  files =
      save_row File.path
        (record {
          path = relative_path compiler result slug;
          content = compiler.markdown result source slug (overall_confidence result) resolved;
        })
        db.files;
}

-- The old file goes once the new one is written, if its path is another.
delete_old_file : String → String → Db → Db
delete_old_file old new db =
    if old == new then db else record db { files = filter (λ f. not (f.path == old)) db.files }

-- `_upsert_article` of a row that is there.
pub replace_article : Compiler → CompilationResult → Source → Article → Action Db Article
unfolding resolve write_article_file delete_old_file commit_source populate
replace_article compiler result source existing db =
    let resolved = resolve compiler result (some existing.id) db in
    let path = relative_path compiler result existing.slug in
    let written =
      delete_old_file (compiler.without_root existing.file_path) path
        (write_article_file compiler result source existing.slug resolved db) in
    let article = apply_article_fields result path source existing in
    populate compiler result source article resolved.resolved (
      commit_source source (
        clear_article_relations existing.id (record written {
          articles =
              update_row Article.id existing.id (apply_article_fields result path source)
                written.articles;
        })))

new_article : Compiler → (new_id : String) → ℕ → CompilationResult → String → Article
new_article compiler new_id now result slug = record {
  id = new_id;
  slug = slug;
  title = result.title;
  file_path = relative_path compiler result slug;
  summary = result.summary;
  confidence = overall_confidence result;
  provider = compiler.last_provider_used;
  page_type = "source";
  user_id = compiler.user_id;
  created_at = now;
}

-- `_upsert_article` without a row.
pub create_article :
    Compiler → (new_id : String) → ℕ → CompilationResult → Source → String → Action Db Article
unfolding new_article write_article_file commit_source populate resolve
create_article compiler new_id now result source slug db =
    let resolved = resolve compiler result none db in
    let article = new_article compiler new_id now result slug in
    let written = write_article_file compiler result source slug resolved db in
    if is_some (get_row Article.id new_id db.articles)
    then (err integrity_error, written)
    else populate compiler result source article resolved.resolved
        (commit_source source (record written { articles = written.articles ++ (article ∷ []) }))

slug_row : Article → Slugs.Article
slug_row a = record { slug = a.slug; user_id = a.user_id }

create_with_slug :
    Compiler
    → (new_id : String) → ℕ
    → CompilationResult
    → Source
    → Result String
    → Action Db Article
unfolding create_article
create_with_slug compiler new_id now result source (err e) db = (err e, db)
create_with_slug compiler new_id now result source (ok slug) db =
    create_article compiler new_id now result source slug db

pub save_article : Compiler → (new_id : String) → ℕ → CompilationResult → Source → Action Db Article
unfolding find_article replace_article create_with_slug slug_row
save_article compiler new_id now result source db =
    elim (find_article compiler.last_provider_used source.id db) [
      | some existing ↦ replace_article compiler result source existing db
      | none ↦
          create_with_slug compiler new_id now result source
            (generate_unique_slug compiler.slug_text compiler.slug_max_attempts result.title
              (map slug_row db.articles) compiler.user_id "" 80 none)
            db
    ]
