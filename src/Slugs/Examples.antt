-- ===== src/Slugs/Examples.antt =====
-- The slug of a second article with the title of a first.
use wikimind.Prelude.{decimal, ◌≡◌, refl, true, some, List, [], ◌∷◌, ok, arith}
use wikimind.Slugs.{Article, Text, generate_unique_slug, try_candidates, attempts_or_default}
use wikimind.Slugs.Unique.{is_new, generate_unique_slug_lem}

abbrev articles : List Article
articles = record { slug = "note"; user_id = "u1" } ∷ []

abbrev text : Text
text = record { slugify = λ title length. "note"; repr = λ title. title }

generate_unique_slug_lem_example :
    is_new "u1" articles (generate_unique_slug text 100 "Note" articles "u1" "" 80 (some 2)) ≡ true
unfolding attempts_or_default
generate_unique_slug_lem_example =
    generate_unique_slug_lem text 100 "Note" articles "u1" "" 80 (some 2) (omega arith)

second_note : generate_unique_slug text 100 "Note" articles "u1" "" 80 (some 2) ≡ ok "note-2"
unfolding generate_unique_slug try_candidates decimal
second_note = refl
