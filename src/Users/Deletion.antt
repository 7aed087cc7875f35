-- ===== src/Users/Deletion.antt =====
-- services/user.py `delete_account`, over the keys of the rows that it deletes. The tables that it
-- does not touch are left out; a foreign key of such a row that the database enforces makes the
-- deletion fail, which is given as what the database raises.
use wikimind.Prelude.{
  String, ◌==◌, ◌≡◌, refl, true, false, not, List, [], ◌∷◌, map, filter, contains, if◌then◌else◌,
  Option, none, some, Error, ok, err, not_found, Action, All, All-filter, arith, Bool-cases, inl,
  inr,
}

-- A row that a user owns.
pub record Owned : Type 0 where
  pub id : String
  pub user_id : String

pub record ArticleJoin : Type 0 where
  pub article_id : String
  pub other_key : String

pub record ContradictionFinding : Type 0 where
  pub report_id : String
  pub article_a_id : String
  pub article_b_id : String

-- An orphan or a structural finding.
pub record ArticleFinding : Type 0 where
  pub report_id : String
  pub article_id : String

pub record Query : Type 0 where
  pub id : String
  pub conversation_id : String

pub record Db : Type 0 where
  pub users : List String
  pub articles : List Owned
  pub reports : List Owned
  pub conversations : List Owned
  pub article_concepts : List ArticleJoin
  pub article_sources : List ArticleJoin
  pub contradictions : List ContradictionFinding
  pub orphans : List ArticleFinding
  pub structural : List ArticleFinding
  pub queries : List Query
  pub backlinks : List Owned
  pub sources : List Owned
  pub concepts : List Owned
  pub jobs : List Owned
  pub cost_logs : List Owned
  pub sync_logs : List Owned
  pub api_keys : List Owned
  pub preferences : List Owned

ids_owned : String → List Owned → List String
ids_owned user_id rows = map Owned.id (filter (λ r. r.user_id == user_id) rows)

-- `delete(T).where(T.user_id == user_id)`
delete_owned : String → List Owned → List Owned
delete_owned user_id rows = filter (λ r. not (r.user_id == user_id)) rows

-- `if ids: delete(T).where(T.key.in_(ids))`
delete_in : {R : Type 0} → (R → String) → List String → List R → List R
delete_in key [] rows = rows
delete_in key (k ∷ ks) rows = filter (λ r. not (contains (k ∷ ks) (key r))) rows

delete_children : List String → List String → List String → Db → Db
unfolding delete_in
delete_children article_ids report_ids conversation_ids db = record db {
  article_concepts = delete_in ArticleJoin.article_id article_ids db.article_concepts;
  article_sources = delete_in ArticleJoin.article_id article_ids db.article_sources;
  contradictions = delete_in ContradictionFinding.report_id report_ids (
      delete_in ContradictionFinding.article_b_id article_ids
        (delete_in ContradictionFinding.article_a_id article_ids db.contradictions));
  orphans =
      delete_in ArticleFinding.report_id report_ids
        (delete_in ArticleFinding.article_id article_ids db.orphans);
  structural =
      delete_in ArticleFinding.report_id report_ids
        (delete_in ArticleFinding.article_id article_ids db.structural);
  queries = delete_in Query.conversation_id conversation_ids db.queries;
}

delete_rows : String → Db → Db
unfolding delete_owned
delete_rows user_id db = record db {
  users = filter (λ u. not (u == user_id)) db.users;
  articles = delete_owned user_id db.articles;
  reports = delete_owned user_id db.reports;
  conversations = delete_owned user_id db.conversations;
  backlinks = delete_owned user_id db.backlinks;
  sources = delete_owned user_id db.sources;
  concepts = delete_owned user_id db.concepts;
  jobs = delete_owned user_id db.jobs;
  cost_logs = delete_owned user_id db.cost_logs;
  sync_logs = delete_owned user_id db.sync_logs;
  api_keys = delete_owned user_id db.api_keys;
  preferences = delete_owned user_id db.preferences;
}

-- The deletion is one transaction: what the database raises in it undoes all of it.
unfoldable pub delete_account : Option Error → String → Action Db (Unit {0})
unfolding ids_owned delete_children delete_rows
delete_account refused user_id db =
    if contains db.users user_id
    then elim refused [
      | some e ↦ (err e, db)
      | none ↦ (
        ok tt,
        delete_rows user_id (
            delete_children (ids_owned user_id db.articles) (ids_owned user_id db.reports)
              (ids_owned user_id db.conversations) db),
      )
    ]
    else (err (not_found "User not found"), db)

-- Every key names a row of the table.
abbrev pub Names : {R : Type 0} → (R → String) → List Owned → List R → Type 0
Names key parents rows = All (λ r. contains (map Owned.id parents) (key r) ≡ true) rows

-- No join row, finding or query names an article, a report or a conversation that is not there.
pub record IsLinked (db : Db) : Type 0 where
  pub concepts_linked : Names ArticleJoin.article_id db.articles db.article_concepts
  pub sources_linked : Names ArticleJoin.article_id db.articles db.article_sources
  pub first_linked : Names ContradictionFinding.article_a_id db.articles db.contradictions
  pub second_linked : Names ContradictionFinding.article_b_id db.articles db.contradictions
  pub contradictions_reported : Names ContradictionFinding.report_id db.reports db.contradictions
  pub orphans_linked : Names ArticleFinding.article_id db.articles db.orphans
  pub orphans_reported : Names ArticleFinding.report_id db.reports db.orphans
  pub structural_linked : Names ArticleFinding.article_id db.articles db.structural
  pub structural_reported : Names ArticleFinding.report_id db.reports db.structural
  pub queries_linked : Names Query.conversation_id db.conversations db.queries

contains-delete_owned :
    (user_id key : String) (parents : List Owned)
    → contains (map Owned.id parents) key ≡ true
    → contains (ids_owned user_id parents) key ≡ false
    → contains (map Owned.id (delete_owned user_id parents)) key ≡ true
unfolding ids_owned delete_owned
contains-delete_owned user_id key [] there free = there
contains-delete_owned user_id key (p ∷ parents) there free =
    ground (arith, contains-delete_owned user_id key parents)

delete_in-filter :
    {R : Type 0} (key : R → String) (ks : List String) (rows : List R)
    → delete_in key ks rows ≡ filter (λ r. not (contains ks (key r))) rows
unfolding delete_in
delete_in-filter key (k ∷ ks) rows = refl
delete_in-filter key [] [] = refl
delete_in-filter key [] (r ∷ rows) = ground (arith, delete_in-filter key [] rows)

module _ {R : Type 0} (key : R → String) (user_id : String) (parents : List Owned) where
  -- The rows that name a deleted parent are deleted with it.
  Names-delete_in :
      (rows : List R)
      → Names key parents rows
      → Names key (delete_owned user_id parents) (delete_in key (ids_owned user_id parents) rows)
  Names-delete_in rows h = rw delete_in-filter (go rows h)
    where
      go :
          (rows : List R)
          → Names key parents rows
          → Names key
              (delete_owned user_id parents)
              (filter (λ r. not (contains (ids_owned user_id parents) (key r))) rows)
      go [] h = tt
      go (r ∷ rows) h = elim (Bool-cases (contains (ids_owned user_id parents) (key r))) [
        | inl gone ↦ rw gone (go rows h.1)
        | inr kept ↦ rw kept (contains-delete_owned user_id (key r) parents h.0 kept, go rows h.1)
      ]

-- Fewer rows name no more.
module _ {R : Type 0} (key : R → String) (parents : List Owned) where
  Names-fewer :
      (other : R → String) (ks : List String) (rows : List R)
      → Names key parents rows
      → Names key parents (delete_in other ks rows)
  Names-fewer other ks rows h = rw delete_in-filter (
      All-filter (λ r. contains (map Owned.id parents) (key r) ≡ true)
        (λ r. not (contains ks (other r))) rows h)

-- If every row of the concept and source joins, the contradiction, orphan and structural findings and
-- the queries names an article, a report or a conversation that is there, then so it is after the
-- deletion of an account, whether it succeeds or the database refuses it. Rows of other tables, such
-- as tags, share links, claims, drafts and other users' links, are not spoken of.
pub IsLinked-delete_account :
    (refused : Option Error) (user_id : String) (db : Db)
    → IsLinked db
    → IsLinked (delete_account refused user_id db).1
unfolding delete_account delete_children delete_rows
IsLinked-delete_account (some e) user_id db l = elim (Bool-cases (contains db.users user_id)) [
  | inr unknown ↦ rw (unknown, delete_account) l
  | inl there ↦ rw (there, delete_account) l
]
IsLinked-delete_account none user_id db l = elim (Bool-cases (contains db.users user_id)) [
  | inr unknown ↦ rw (unknown, delete_account) l
  | inl there ↦
      let gone = ids_owned user_id db.articles in
      let unreported = ids_owned user_id db.reports in
      let left = delete_owned user_id db.articles in
      rw (there, delete_account)
        (record {
          concepts_linked = Names-delete_in _ user_id db.articles _ l.concepts_linked;
          sources_linked = Names-delete_in _ user_id db.articles _ l.sources_linked;
          first_linked =
              Names-fewer ContradictionFinding.article_a_id left ContradictionFinding.report_id
                unreported _
                (Names-fewer ContradictionFinding.article_a_id left
                  ContradictionFinding.article_b_id gone _
                  (Names-delete_in _ user_id db.articles _ l.first_linked));
          second_linked =
              Names-fewer ContradictionFinding.article_b_id left ContradictionFinding.report_id
                unreported _
                (Names-delete_in _ user_id db.articles _ (
                  Names-fewer ContradictionFinding.article_b_id db.articles
                    ContradictionFinding.article_a_id gone _ l.second_linked));
          contradictions_reported = Names-delete_in _ user_id db.reports _ (
              Names-fewer ContradictionFinding.report_id db.reports
                ContradictionFinding.article_b_id gone _
                (Names-fewer ContradictionFinding.report_id db.reports
                  ContradictionFinding.article_a_id gone _ l.contradictions_reported));
          orphans_linked =
              Names-fewer ArticleFinding.article_id left ArticleFinding.report_id unreported _
                (Names-delete_in _ user_id db.articles _ l.orphans_linked);
          orphans_reported = Names-delete_in _ user_id db.reports _ (
              Names-fewer ArticleFinding.report_id db.reports ArticleFinding.article_id gone _
                l.orphans_reported);
          structural_linked =
              Names-fewer ArticleFinding.article_id left ArticleFinding.report_id unreported _
                (Names-delete_in _ user_id db.articles _ l.structural_linked);
          structural_reported = Names-delete_in _ user_id db.reports _ (
              Names-fewer ArticleFinding.report_id db.reports ArticleFinding.article_id gone _
                l.structural_reported);
          queries_linked = Names-delete_in _ user_id db.conversations _ l.queries_linked;
        })
]
