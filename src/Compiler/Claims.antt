-- ===== src/Compiler/Claims.antt =====
-- engine/compiler.py `_persist_claims`: what the stored claims cite.
use wikimind.Prelude.{
  String, ◌==◌, ◌≡◌, refl, Bool, true, not, ◌||◌, some, List, [], ◌∷◌, map, filter, all, contains,
  All, All-append, arith, Option-cases, Bool-cases, inl, inr,
}
use wikimind.Wikilinks.{ResolvedBacklink}
use wikimind.Compiler.{
  CompilationResult, CompiledClaimDto, CompiledClaim, Source, Article, Db, Compiler, claim_of,
  populate, insert_all, commit_source, clear_article_relations, apply_article_fields,
  write_article_file, delete_old_file, relative_path, resolve, replace_article,
}

-- A claim of the article cites only spans that the compiler has loaded.
unfoldable pub cites_spans : Compiler → String → CompiledClaim → Bool
cites_spans compiler article_id c =
    not (c.article_id == article_id) || all (contains compiler.source_spans) c.source_span_ids

all-filter : (p : String → Bool) (xs : List String) → all p (filter p xs) ≡ true
all-filter p [] = refl
all-filter p (x ∷ xs) = ground (arith, all-filter p xs)

All-claim_of :
    (compiler : Compiler) (article_id : String) (source : Source) (dtos : List CompiledClaimDto)
    → All
        (λ c. cites_spans compiler article_id c ≡ true)
        (map (claim_of compiler article_id source) dtos)
unfolding cites_spans claim_of
All-claim_of compiler article_id source [] = tt
All-claim_of compiler article_id source (d ∷ dtos) = (
  ground (arith, all-filter (contains compiler.source_spans) d.source_span_ids),
  All-claim_of compiler article_id source dtos,
)

All-any_claim :
    (compiler : Compiler) (article_id : String) (claims : List CompiledClaim)
    → All
        (λ c. cites_spans compiler article_id c ≡ true)
        (filter (λ c. not (c.article_id == article_id)) claims)
unfolding cites_spans
All-any_claim compiler article_id [] = tt
All-any_claim compiler article_id (c ∷ claims) =
    let later = All-any_claim compiler article_id claims in
    elim (Bool-cases (c.article_id == article_id)) [
      | inl own ↦ rw own later
      | inr other ↦ rw other (ground arith, later)
    ]

All-populate :
    (compiler : Compiler) (result : CompilationResult) (source : Source) (article : Article)
    (resolved : List ResolvedBacklink) (db : Db)
    → All (λ c. cites_spans compiler article.id c ≡ true) db.claims
    → All
        (λ c. cites_spans compiler article.id c ≡ true)
        (populate compiler result source article resolved db).1.claims
unfolding populate
All-populate compiler result source article resolved db h =
    elim (Option-cases (insert_all article.id (source.id ∷ []) db.article_sources)) [
      | inl clash ↦ rw (clash, populate) h
      | inr (sources, s) ↦
          rw (s, populate)
            (elim (Option-cases (insert_all article.id result.concepts db.article_concepts)) [
              | inl clash ↦ rw clash h
              | inr (concepts, c) ↦ rw c (
                  All-append (λ c. cites_spans compiler article.id c ≡ true) db.claims _ h
                    (All-claim_of compiler article.id source result.key_claims))
            ])
    ]

-- Whatever span ids the language model invents, every claim that a recompilation stores for the
-- article cites only spans of its source that the compiler has loaded.
pub replace_article_cites :
    (compiler : Compiler) (result : CompilationResult) (source : Source) (existing : Article)
    (db : Db)
    → All
        (λ c. cites_spans compiler existing.id c ≡ true)
        (replace_article compiler result source existing db).1.claims
unfolding replace_article commit_source clear_article_relations apply_article_fields
    write_article_file delete_old_file
replace_article_cites compiler result source existing db =
    let resolved = resolve compiler result (some existing.id) db in
    let path = relative_path compiler result existing.slug in
    let written =
      delete_old_file (compiler.without_root existing.file_path) path
        (write_article_file compiler result source existing.slug resolved db) in
    All-populate compiler result source (apply_article_fields result path source existing)
      resolved.resolved _ (All-any_claim compiler existing.id written.claims)
