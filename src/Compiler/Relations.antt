-- ===== src/Compiler/Relations.antt =====
-- engine/compiler.py: the rows that a save leaves in the join tables and among the claims.
use wikimind.Prelude.{
  String, ◌==◌, eq_refl, eq_sym, eq→path, ◌≡◌, refl, Bool, true, not, ◌&&◌, none, some, List, [],
  ◌∷◌, ◌++◌, append-nil, append_assoc, map, filter, any, all, contains, contains-append, is_ok,
  arith, if◌then◌else◌,
}
use wikimind.Wikilinks.{ResolvedBacklink}
use wikimind.Compiler.{
  CompilationResult, Source, Article, Relation, Db, Compiler, belongs, clashes, insert_all,
  drop_relations, clear_article_relations, populate, commit_source, replace_article,
  apply_article_fields, resolve, write_article_file, delete_old_file,
}

-- The other keys of an article's rows.
unfoldable pub others_of : String → List Relation → List String
unfolding belongs
others_of article_id rows = map Relation.other (filter (belongs article_id) rows)

rows_of : String → List String → List Relation
rows_of article_id [] = []
rows_of article_id (x ∷ xs) = record { article_id = article_id; other = x } ∷ rows_of article_id xs

unfoldable pub no_repeats : List String → Bool
no_repeats [] = true
no_repeats (x ∷ xs) = not (contains xs x) && no_repeats xs

-- None of the keys is among the others.
apart : List String → List String → Bool
apart xs keys = all (λ x. not (contains keys x)) xs

others_of-append :
    (a : String) (rows new : List Relation)
    → others_of a (rows ++ new) ≡ others_of a rows ++ others_of a new
unfolding others_of
others_of-append a [] new = refl
others_of-append a (r ∷ rows) new = ground (arith, others_of-append a rows new)

any-clashes :
    (a x : String) (rows : List Relation)
    → any (clashes (record { article_id = a; other = x })) rows ≡ contains (others_of a rows) x
unfolding clashes others_of belongs
any-clashes a x [] = refl
any-clashes a x (r ∷ rows) = ground (arith, any-clashes a x rows, eq_sym r.other x)

apart-append :
    (xs keys : List String) (x : String)
    → apart xs (keys ++ (x ∷ [])) ≡ (apart xs keys && not (contains xs x))
unfolding apart
apart-append [] keys x = refl
apart-append (y ∷ xs) keys x =
    ground (arith, apart-append xs keys x, contains-append keys (x ∷ []) y, eq_sym x y)

-- The rows are inserted just if no two of them are equal and none is there.
insert_all_lem :
    (a : String) (xs : List String) (rows : List Relation)
    → insert_all a xs rows
      ≡ (if no_repeats xs && apart xs (others_of a rows) then some (rows ++ rows_of a xs) else none)
unfolding insert_all no_repeats apart rows_of
insert_all_lem a [] rows = rw append-nil refl
insert_all_lem a (x ∷ xs) rows =
    let new : Relation = record { article_id = a; other = x } in
    let own : others_of a (new ∷ []) ≡ (x ∷ []) =
      unfold others_of belongs in ground (arith, eq_refl a) in
    ground (
      arith,
      insert_all_lem a xs (rows ++ (new ∷ [])),
      any-clashes a x rows,
      others_of-append a rows (new ∷ []),
      own,
      apart-append xs (others_of a rows) x,
      append_assoc rows (new ∷ []) (rows_of a xs),
    )

others_of-rows_of :
    (a j : String) (xs : List String) → others_of j (rows_of a xs) ≡ (if a == j then xs else [])
unfolding others_of rows_of belongs
others_of-rows_of a j [] = ground arith
others_of-rows_of a j (x ∷ xs) = ground (arith, others_of-rows_of a j xs)

others_of-drop_relations :
    (a j : String) (rows : List Relation)
    → others_of j (drop_relations a rows) ≡ (if a == j then [] else others_of j rows)
unfolding others_of drop_relations belongs
others_of-drop_relations a j [] = ground arith
others_of-drop_relations a j (r ∷ rows) = ground (
  arith,
  others_of-drop_relations a j rows,
  eq→path r.article_id a,
  eq→path r.article_id j,
  eq→path a j,
  eq_refl j,
)

apart-nothing : (xs : List String) → apart xs [] ≡ true
unfolding apart
apart-nothing [] = refl
apart-nothing (x ∷ xs) = apart-nothing xs

-- The keys of an article's rows, once its old rows were dropped and the new ones inserted.
replaced :
    (a j : String) (xs : List String) (rows : List Relation)
    → (insert_all a xs (drop_relations a rows)
        ≡ (if no_repeats xs then some (drop_relations a rows ++ rows_of a xs) else none))
      × (others_of j (drop_relations a rows ++ rows_of a xs)
          ≡ (if a == j then xs else others_of j rows))
replaced a j xs rows = ground (
  arith,
  insert_all_lem a xs (drop_relations a rows),
  others_of-drop_relations a a rows,
  others_of-drop_relations a j rows,
  others_of-append j (drop_relations a rows) (rows_of a xs),
  others_of-rows_of a j xs,
  apart-nothing xs,
  eq_refl a,
  append-nil (others_of j rows),
)

-- What `populate` leaves of the join tables, if the article's own rows are gone from them.
populate_lem :
    (compiler : Compiler) (result : CompilationResult) (source : Source) (article : Article)
    (resolved : List ResolvedBacklink) (db : Db) (concepts sources : List Relation) (j : String)
    → db.article_concepts ≡ drop_relations article.id concepts
    → db.article_sources ≡ drop_relations article.id sources
    → let after = populate compiler result source article resolved db in
      let fine = no_repeats result.concepts in
      (is_ok after.0 ≡ fine)
      × (others_of j after.1.article_concepts ≡ (
          if article.id == j then if fine then result.concepts else [] else others_of j concepts))
      × (others_of j after.1.article_sources
          ≡ (if article.id == j then if fine then source.id ∷ [] else [] else others_of j sources))
unfolding populate
populate_lem compiler result source article resolved db concepts sources j c s =
    let once : no_repeats (source.id ∷ []) ≡ true = unfold no_repeats in refl in
    ground (
      arith,
      c,
      s,
      once,
      replaced article.id j (source.id ∷ []) sources,
      replaced article.id j result.concepts concepts,
      others_of-drop_relations article.id j sources,
      others_of-drop_relations article.id j concepts,
    )

-- When an article that is there is compiled again: the call returns just if the result names no
-- concept twice. Then the article's rows name the result's concepts and the source, and nothing
-- else; if a concept is named twice, the call raises and the article is left without any row, so
-- that it is no longer found by its source. The rows of other articles stay.
pub replace_article_lem :
    (compiler : Compiler) (result : CompilationResult) (source : Source) (existing : Article)
    (db : Db) (j : String)
    → let after = replace_article compiler result source existing db in
      let fine = no_repeats result.concepts in
      (is_ok after.0 ≡ fine)
      × (others_of j after.1.article_concepts ≡ (
          if existing.id == j
          then if fine then result.concepts else []
          else others_of j db.article_concepts))
      × (others_of j after.1.article_sources ≡ (
          if existing.id == j
          then if fine then source.id ∷ [] else []
          else others_of j db.article_sources))
unfolding replace_article commit_source clear_article_relations apply_article_fields
    write_article_file delete_old_file
replace_article_lem compiler result source existing db j =
    populate_lem compiler result source _ (resolve compiler result (some existing.id) db).resolved _
      db.article_concepts db.article_sources j (ground arith) (ground arith)
