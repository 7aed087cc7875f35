-- ===== src/Compiler/Examples.antt =====
-- A source compiled again into its article, with a concept named once and twice.
use wikimind.Prelude.{String, ◌≡◌, true, false, none, some, List, [], ◌∷◌, All, is_ok}
use wikimind.Backlinks.{references}
use wikimind.Compiler.{
  CompilationResult, CompiledClaimDto, Source, Article, Db, Compiler, sourced, replace_article,
}
use wikimind.Compiler.Relations.{others_of, no_repeats, replace_article_lem}
use wikimind.Compiler.Claims.{cites_spans, replace_article_cites}

abbrev claim : CompiledClaimDto
claim = record {
  claim = "x is fast";
  confidence = sourced;
  subjects = [];
  predicate = none;
  quote = none;
  source_ids = [];
  source_span_ids = "p1" ∷ "invented" ∷ [];
}

abbrev result : List String → CompilationResult
result concepts = record {
  title = "Note";
  summary = "";
  key_claims = claim ∷ [];
  concepts = concepts;
  backlink_suggestions = [];
  article_body = "";
}

abbrev source : Source
source = record { id = "s1"; user_id = "u1"; compiled = false }

abbrev note : Article
note = record {
  id = "a1";
  slug = "note";
  title = "Old";
  file_path = "old/note.md";
  summary = "";
  confidence = sourced;
  provider = some "anthropic";
  page_type = "source";
  user_id = "u1";
  created_at = 0;
}

abbrev db : Db
db = record {
  articles = note ∷ [];
  sources = source ∷ [];
  article_sources = record { article_id = "a1"; other = "s1" } ∷ [];
  article_concepts = record { article_id = "a1"; other = "old" } ∷ [];
  links = [];
  claims = [];
  files = [];
}

abbrev kept : String → String
kept s = s

abbrev compiler : Compiler
compiler = record {
  user_id = "u1";
  last_provider_used = some "anthropic";
  last_typed_suggestions = λ t. none;
  source_spans = "p1" ∷ [];
  slugify = kept;
  slug_text = record { slugify = λ t n. t; repr = kept };
  slug_max_attempts = 100;
  strip = kept;
  lower = kept;
  normalize_title = kept;
  relation_type = λ t. some references;
  without_root = λ path. path;
  markdown = λ r s slug confidence resolved. r.article_body;
}

replace_article_lem_example :
    (is_ok (replace_article compiler (result ("x" ∷ "x" ∷ [])) source note db).0 ≡ false)
    × (others_of "a1"
          (replace_article compiler (result ("x" ∷ "x" ∷ [])) source note db).1.article_concepts
        ≡ [])
    × (others_of "a1"
          (replace_article compiler (result ("x" ∷ "x" ∷ [])) source note db).1.article_sources
        ≡ [])
unfolding no_repeats
replace_article_lem_example =
    replace_article_lem compiler (result ("x" ∷ "x" ∷ [])) source note db "a1"

replace_article_cites_example :
    All
      (λ c. cites_spans compiler "a1" c ≡ true)
      (replace_article compiler (result ("x" ∷ [])) source note db).1.claims
replace_article_cites_example = replace_article_cites compiler (result ("x" ∷ [])) source note db
