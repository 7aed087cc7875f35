-- ===== src/Sweep/Examples.antt =====
-- Two articles, one with an open bracket that names the other.
use wikimind.Prelude.{
  String, ◌≡◌, refl, List, [], ◌∷◌, map, get_row, save_row, delete_row, ◌==◌, if◌then◌else◌, false,
}
use wikimind.Wikilinks.{ResolvedBacklink, resolve_backlink_candidates}
use wikimind.Sweep.{
  Page, File, Db, Segment, text, bracket, link, sweep_wikilinks, sweep_single_article, page_id,
  find_file, entry_key, resolved_for,
}
use wikimind.Sweep.Links.{IsLinked, same_page}
use wikimind.Sweep.Soundness.{IsLinked-sweep_wikilinks}
use wikimind.Sweep.Promotion.{says, says-sweep_wikilinks}

abbrev page : String → String → String → Page
page id title page_type = record {
  article = record { id = id; user_id = "u1"; title = title; created_at = 0 };
  file_path = id;
  page_type = page_type;
}

abbrev file : String → List Segment → File
file path content = record { user_id = "u1"; path = path; content = content }

abbrev db : Db
db = record {
  pages = page "a1" "Note" "source" ∷ page "a2" "Cache" "source" ∷ page "a3" "Lost" "concept" ∷ [];
  links = [];
  files = file "a1" (text "see " ∷ bracket "Cache" ∷ []) ∷ file "a2" [] ∷ [];
}

abbrev kept : String → String
kept s = s

db-IsLinked : IsLinked db
unfolding same_page
db-IsLinked = record {
  pages_distinct = (refl, (refl, (refl, tt)));
  pairs_distinct = tt;
  links_own = tt;
}

IsLinked-sweep_wikilinks_example : IsLinked (sweep_wikilinks kept kept kept "u1" db).1
IsLinked-sweep_wikilinks_example = IsLinked-sweep_wikilinks kept kept kept "u1" db db-IsLinked

says-sweep_wikilinks_example :
    map says (sweep_wikilinks kept kept kept "u1" db).1.files ≡ map says db.files
says-sweep_wikilinks_example = says-sweep_wikilinks kept kept kept "u1" db

swept :
    (sweep_wikilinks kept kept kept "u1" db).1.files
    ≡ (file "a1" (text "see " ∷ link "Cache" "a2" ∷ []) ∷ file "a2" [] ∷ [])
unfolding sweep_wikilinks find_file delete_row page_id get_row resolve_backlink_candidates save_row
    entry_key
swept = refl

-- A bracket with a space inside is resolved to an article, and is left open all the same.
abbrev trimmed : String → String
trimmed s = if s == " Cache " then "Cache" else s

abbrev padded : Db
padded = record db { files = file "a1" (bracket " Cache " ∷ []) ∷ file "a2" [] ∷ [] }

padded_left_open : (sweep_single_article trimmed kept kept "a1" padded).0 ≡ false
unfolding sweep_single_article find_file page_id get_row resolve_backlink_candidates save_row
    entry_key
padded_left_open = refl

padded_resolved :
    map ResolvedBacklink.target_id
      (resolved_for trimmed kept kept (page "a1" "Note" "source") padded.pages (" Cache " ∷ []))
    ≡ ("a2" ∷ [])
unfolding resolved_for get_row resolve_backlink_candidates
padded_resolved = refl
