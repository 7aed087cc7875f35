-- ===== src/Sweep.antt =====
-- jobs/sweep.py: the sweep that turns a user's open brackets into links. The content of a file is
-- the sequence of what the bracket pattern matches, of links written by a sweep, and of the text
-- between them; a link that is written holds no open bracket.
pub mod Links
pub mod Soundness
pub mod Promotion
mod Examples
use wikimind.Prelude.{
  ℕ, suc, String, ◌==◌, Bool, true, false, not, ◌&&◌, ◌||◌, Option, none, some, List, [], ◌∷◌, ◌++◌,
  map, filter, find, contains, if◌then◌else◌, get_row, save_row, delete_row, is_some,
}
use wikimind.Wikilinks
use wikimind.Wikilinks.{ResolvedBacklink, resolve_backlink_candidates}
use wikimind.Backlinks.{Backlink, references}

-- An article's row: what the resolver reads, the path of its file, and its page type.
pub record Page : Type 0 where
  pub article : Wikilinks.Article
  pub file_path : String
  pub page_type : String

unfoldable pub page_id : Page → String
page_id p = p.article.id

pub data Segment : Type 0 where
  text : String → Segment
  bracket : String → Segment
  link : String → String → Segment

-- A file of a user's wiki.
pub record File : Type 0 where
  pub user_id : String
  pub path : String
  pub content : List Segment

pub record Db : Type 0 where
  pub pages : List Page
  pub links : List Backlink
  pub files : List File

unfoldable pub is_file : String → String → File → Bool
is_file user_id path f = f.user_id == user_id && f.path == path

-- `wiki_storage.exists`, which is false for an invalid path as well.
unfoldable pub find_file : Db → Page → Option File
unfolding is_file
find_file db p = find (is_file p.article.user_id p.file_path) db.files

-- `_WIKILINK_RE.findall`
brackets : List Segment → List String
brackets [] = []
brackets (bracket t ∷ s) = t ∷ brackets s
brackets (text t ∷ s) = brackets s
brackets (link t id ∷ s) = brackets s

-- `list(dict.fromkeys(matches))`, onto the keys so far
unique_onto : List String → List String → List String
unique_onto keys [] = keys
unique_onto keys (m ∷ ms) = unique_onto (if contains keys m then keys else keys ++ (m ∷ [])) ms

-- An entry of `resolved_map`: a lowered text with the id of its target.
abbrev pub Entry : Type 0
Entry = String × String

unfoldable pub entry_key : Entry → String
entry_key e = e.0

unfoldable pub resolved_map : (String → String) → List ResolvedBacklink → List Entry → List Entry
resolved_map lower [] entries = entries
resolved_map lower (rb ∷ rbs) entries =
    resolved_map lower rbs (save_row entry_key (lower rb.candidate_text, rb.target_id) entries)

-- `_replace_match`
unfoldable pub replace_match : (String → String) → List Entry → Segment → Segment
replace_match lower entries (bracket t) = elim (get_row entry_key (lower t) entries) [
  | none ↦ bracket t
  | some e ↦ link t e.1
]
replace_match lower entries s = s

same_segment : Segment → Segment → Bool
same_segment (text t) (text u) = t == u
same_segment (bracket t) (bracket u) = t == u
same_segment (link t i) (link u j) = t == u && i == j
same_segment _ _ = false

-- `new_content == content`
unfoldable pub same_content : List Segment → List Segment → Bool
unfolding same_segment
same_content [] [] = true
same_content (s ∷ ss) (t ∷ ts) = same_segment s t && same_content ss ts
same_content _ _ = false

-- The first file that the path names, with its new content.
unfoldable pub write_file : String → String → List Segment → List File → List File
unfolding is_file
write_file user_id path content [] = []
write_file user_id path content (f ∷ fs) =
    if is_file user_id path f
    then record f { content = content } ∷ fs
    else f ∷ write_file user_id path content fs

unfoldable pub same_pair : Backlink → Backlink → Bool
same_pair new l =
    l.source_article_id == new.source_article_id && l.target_article_id == new.target_article_id

-- Get or create: a row of the pair has its context replaced.
unfoldable pub put_link : Backlink → List Backlink → List Backlink
unfolding same_pair
put_link new [] = new ∷ []
put_link new (l ∷ ls) =
    if same_pair new l then record l { context = new.context } ∷ ls else l ∷ put_link new ls

unfoldable pub link_of : Page → ResolvedBacklink → Backlink
link_of p rb = record {
  source_article_id = p.article.id;
  target_article_id = rb.target_id;
  user_id = p.article.user_id;
  context = some rb.candidate_text;
  relation_type = references;
}

unfoldable pub put_links : Page → List ResolvedBacklink → List Backlink → List Backlink
unfolding put_link link_of
put_links p [] links = links
put_links p (rb ∷ rbs) links = put_links p rbs (put_link (link_of p rb) links)

unfoldable pub touches : String → Backlink → Bool
touches id l = l.source_article_id == id || l.target_article_id == id

-- The orphaned pages, each deleted with its links.
pub remove_pages : List Page → Db → Db
unfolding touches
remove_pages [] db = db
remove_pages (p ∷ ps) db =
    let later = remove_pages ps (record db {
      pages = delete_row page_id p.article.id db.pages;
      links = filter (λ l. not (touches p.article.id l)) db.links;
    }) in
    if is_some (find_file db p) then remove_pages ps db else later

-- `_cleanup_orphaned_concept_pages`
pub cleanup_orphaned_concept_pages : String → Db → Db
unfolding remove_pages
cleanup_orphaned_concept_pages user_id db =
    remove_pages (filter (λ p. p.page_type == "concept" && p.article.user_id == user_id) db.pages)
      db

module _ (strip lower normalize_title : String → String) where
  -- The file and the links that follow from what was resolved, if that changes the file.
  promote : Page → File → List ResolvedBacklink → Db → Bool × Db
  unfolding resolved_map replace_match same_content write_file put_links
  promote p f [] db = (false, db)
  promote p f (rb ∷ rbs) db =
      let new_content = map (replace_match lower (resolved_map lower (rb ∷ rbs) [])) f.content in
      if same_content new_content f.content then (false, db) else (
        true,
        record db {
          files = write_file p.article.user_id p.file_path new_content db.files;
          links = put_links p (rb ∷ rbs) db.links;
        },
      )

  pub resolved_for : Page → List Page → List String → List ResolvedBacklink
  resolved_for p pages candidates =
      (resolve_backlink_candidates strip lower normalize_title (λ t. none) p.article.user_id
        (some p.article.id) (map Page.article pages) candidates).resolved

  sweep_file : Page → File → List String → Db → Bool × Db
  unfolding promote resolved_for unique_onto
  sweep_file p f [] db = (false, db)
  sweep_file p f (m ∷ ms) db = promote p f (resolved_for p db.pages (unique_onto [] (m ∷ ms))) db

  sweep_page : Page → Option File → Db → Bool × Db
  unfolding sweep_file brackets
  sweep_page p none db = (false, db)
  sweep_page p (some f) db = sweep_file p f (brackets f.content) db

  -- `_sweep_single_article`
  pub sweep_single_article : String → Db → Bool × Db
  unfolding sweep_page
  sweep_single_article article_id db = elim (get_row page_id article_id db.pages) [
    | none ↦ (false, db)
    | some p ↦ sweep_page p (find_file db p) db
  ]

  -- The loop of `sweep_wikilinks`, with the number of articles updated so far.
  pub sweep_articles : List String → ℕ → Db → ℕ × Db
  unfolding sweep_single_article
  sweep_articles [] updated db = (updated, db)
  sweep_articles (id ∷ ids) updated db =
      let (changed, after) = sweep_single_article id db in
      sweep_articles ids (if changed then suc updated else updated) after

  -- `sweep_wikilinks`: the number of articles updated, and what the sweep leaves.
  pub sweep_wikilinks : String → Db → ℕ × Db
  unfolding cleanup_orphaned_concept_pages sweep_articles
  sweep_wikilinks user_id db =
      let clean = cleanup_orphaned_concept_pages user_id db in
      sweep_articles (map page_id (filter (λ p. p.article.user_id == user_id) clean.pages)) 0 clean
