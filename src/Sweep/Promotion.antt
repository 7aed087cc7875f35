-- ===== src/Sweep/Promotion.antt =====
-- jobs/sweep.py: what a sweep does to the files.
use wikimind.Prelude.{
  ℕ, String, ◌==◌, ◌≡◌, ◌∙◌, refl, ap, ◌&&◌, some, List, [], ◌∷◌, map, filter, find, is_some,
  get_row, arith, Option-cases, Bool-cases, inl, inr,
}
use wikimind.Wikilinks.{ResolvedBacklink}
use wikimind.Sweep.{
  Page, page_id, Segment, text, bracket, link, File, Db, Entry, entry_key, is_file, find_file,
  brackets, resolved_map, replace_match, same_content, write_file, promote, sweep_file, sweep_page,
  sweep_single_article, sweep_articles, remove_pages, cleanup_orphaned_concept_pages,
  sweep_wikilinks,
}

-- What a reader sees of a segment, whether it is a link or not.
unfoldable pub shown : Segment → String
shown (text t) = t
shown (bracket t) = t
shown (link t id) = t

-- Whose file it is, where it stands, and what it says.
unfoldable pub says : File → String × (String × List String)
unfolding shown
says f = (f.user_id, (f.path, map shown f.content))

shown-replace_match :
    (lower : String → String) (entries : List Entry) (s : Segment)
    → shown (replace_match lower entries s) ≡ shown s
unfolding shown replace_match
shown-replace_match lower entries (text t) = refl
shown-replace_match lower entries (link t id) = refl
shown-replace_match lower entries (bracket t) =
    elim (Option-cases (get_row entry_key (lower t) entries)) [
      | inl missing ↦ ground (arith, missing)
      | inr (e, found) ↦ ground (arith, found)
    ]

map-shown-replace_match :
    (lower : String → String) (entries : List Entry) (content : List Segment)
    → map shown (map (replace_match lower entries) content) ≡ map shown content
map-shown-replace_match lower entries [] = refl
map-shown-replace_match lower entries (s ∷ content) =
    ground
      (arith, shown-replace_match lower entries s, map-shown-replace_match lower entries content)

says-write_file :
    (user_id path : String) (content : List Segment) (f : File) (files : List File)
    → find (is_file user_id path) files ≡ some f
    → map shown content ≡ map shown f.content
    → map says (write_file user_id path content files) ≡ map says files
unfolding write_file says
says-write_file user_id path content f [] found same = absurd (ground arith)
says-write_file user_id path content f (g ∷ files) found same =
    elim (Bool-cases (is_file user_id path g)) [
      | inl this ↦ ground (arith, this)
      | inr other ↦ ground (arith, other, says-write_file user_id path content f files)
    ]

module _ (strip lower normalize_title : String → String) where
  says-promote :
      (p : Page) (f : File) (rbs : List ResolvedBacklink) (db : Db)
      → find_file db p ≡ some f
      → map says (promote strip lower normalize_title p f rbs db).1.files ≡ map says db.files
  unfolding promote find_file
  says-promote p f [] db found = refl
  says-promote p f (rb ∷ rbs) db found =
      let entries = resolved_map lower (rb ∷ rbs) [] in
      let new_content = map (replace_match lower entries) f.content in
      elim (Bool-cases (same_content new_content f.content)) [
        | inl same ↦ rw (same, promote) refl
        | inr changed ↦
            rw (changed, promote)
              (says-write_file p.article.user_id p.file_path new_content f db.files found
                (map-shown-replace_match lower entries f.content))
      ]

  says-sweep_file :
      (p : Page) (f : File) (found : List String) (db : Db)
      → find_file db p ≡ some f
      → map says (sweep_file strip lower normalize_title p f found db).1.files ≡ map says db.files
  unfolding sweep_file
  says-sweep_file p f [] db there = refl
  says-sweep_file p f (m ∷ ms) db there = says-promote p f _ db there

  says-sweep_single_article :
      (article_id : String) (db : Db)
      → map says (sweep_single_article strip lower normalize_title article_id db).1.files
        ≡ map says db.files
  unfolding sweep_single_article sweep_page
  says-sweep_single_article article_id db =
      elim (Option-cases (get_row page_id article_id db.pages)) [
        | inl missing ↦ rw (missing, sweep_single_article) refl
        | inr (p, found) ↦
            rw (found, sweep_single_article)
              (elim (Option-cases (find_file db p)) [
                | inl gone ↦ rw (gone, sweep_page) refl
                | inr (f, there) ↦
                    rw (there, sweep_page) (says-sweep_file p f (brackets f.content) db there)
              ])
      ]

  says-sweep_articles :
      (ids : List String) (updated : ℕ) (db : Db)
      → map says (sweep_articles strip lower normalize_title ids updated db).1.files
        ≡ map says db.files
  unfolding sweep_articles
  says-sweep_articles [] updated db = refl
  says-sweep_articles (id ∷ ids) updated db =
      says-sweep_articles ids _ (sweep_single_article strip lower normalize_title id db).1
      ∙ says-sweep_single_article id db

files-remove_pages : (ps : List Page) (db : Db) → (remove_pages ps db).files ≡ db.files
unfolding remove_pages
files-remove_pages [] db = refl
files-remove_pages (p ∷ ps) db = elim (Bool-cases (is_some (find_file db p))) [
  | inl there ↦ rw (there, remove_pages) (files-remove_pages ps db)
  | inr gone ↦ rw (gone, remove_pages) (files-remove_pages ps _)
]

-- A sweep turns brackets into links and does nothing else to the files: every file is still there,
-- at its place, and every piece of its text reads the same.
pub says-sweep_wikilinks :
    (strip lower normalize_title : String → String) (user_id : String) (db : Db)
    → map says (sweep_wikilinks strip lower normalize_title user_id db).1.files ≡ map says db.files
unfolding sweep_wikilinks cleanup_orphaned_concept_pages
says-sweep_wikilinks strip lower normalize_title user_id db =
    let clean = cleanup_orphaned_concept_pages user_id db in
    says-sweep_articles strip lower normalize_title
      (map page_id (filter (λ p. p.article.user_id == user_id) clean.pages)) 0 clean
    ∙ ap (map says) (
        files-remove_pages
          (filter (λ p. p.page_type == "concept" && p.article.user_id == user_id) db.pages) db)
