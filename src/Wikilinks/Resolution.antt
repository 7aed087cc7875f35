-- ===== src/Wikilinks/Resolution.antt =====
-- engine/wikilink_resolver.py: what is resolved, to which articles, and what is left over.
use wikimind.Prelude.{
  String, ◌==◌, ◌≡◌, refl, ap, subst, ◌∙◌, sym, true, false, not, ◌||◌, Option, none, some, List,
  [], ◌∷◌, ◌++◌, filter, if◌then◌else◌, is_some, get_row, All, All-append, contains,
  contains-append, IsNodup, arith, eq_iff, eq_sym, eq_refl, Bool-cases, Option-cases, inl, inr,
  append_assoc, append-nil,
}
use wikimind.Wikilinks.{
  Article, ResolvedBacklink, ResolvedBacklinks, all_articles, cleaned, by_lower, by_normalized,
  target_of, add_target, add_candidate, resolve_all, resolve_backlink_candidates,
}
use wikimind.Wikilinks.Matching.{match, target_of_lem}

abbrev pub ids : List ResolvedBacklink → List String
ids [] = []
ids (b ∷ bs) = b.target_id ∷ ids bs

ids-append :
    (bs : List ResolvedBacklink) (b : ResolvedBacklink)
    → ids (bs ++ (b ∷ [])) ≡ ids bs ++ (b.target_id ∷ [])
ids-append [] b = refl
ids-append (c ∷ bs) b = ap (λ l. c.target_id ∷ l) (ids-append bs b)

contains-ids :
    (k : String) (bs : List ResolvedBacklink)
    → contains (ids bs) k ≡ is_some (get_row ResolvedBacklink.target_id k bs)
unfolding get_row
contains-ids k [] = refl
contains-ids k (b ∷ bs) = ground (arith, contains-ids k bs, eq_sym b.target_id k)

IsNodup-append :
    (xs : List String) (y : String) → IsNodup xs → contains xs y ≡ false → IsNodup (xs ++ (y ∷ []))
IsNodup-append [] y h f = (refl, tt)
IsNodup-append (x ∷ xs) y h f = (
  ground (arith, h.0, contains-append xs (y ∷ []) x, eq_sym x y),
  IsNodup-append xs y h.1 (ground arith),
)

module _ (strip lower normalize_title : String → String) (rel_map : String → Option String) where
  module _ (f : String → Option Article) where
    -- The entry is the article that its candidate is resolved to.
    abbrev pub IsTarget : ResolvedBacklink → Type 0
    IsTarget b =
        (a : Article) × (f b.candidate_text ≡ some a)
        × (b.target_id ≡ a.id)
        × (b.target_title ≡ a.title)

    -- The target of a candidate, if it has one, stands in the result.
    abbrev pub Covers : ResolvedBacklinks → Option Article → Type 0
    Covers r none = Unit
    Covers r (some a) = contains (ids r.resolved) a.id ≡ true

    unresolved-add_candidate :
        (c : String) (o : Option Article) (r : ResolvedBacklinks) (rest : List String)
        → (add_candidate strip lower normalize_title rel_map c o r).unresolved ++ rest
          ≡ r.unresolved ++ (if not (is_some o) then c ∷ rest else rest)
    unfolding add_candidate
    unresolved-add_candidate c none r rest = append_assoc r.unresolved (c ∷ []) rest
    unresolved-add_candidate c (some a) r rest = refl

    unresolved-resolve_all :
        (cs : List String) (r : ResolvedBacklinks)
        → (resolve_all strip lower normalize_title rel_map f cs r).unresolved
          ≡ r.unresolved ++ filter (λ c. not (is_some (f c))) cs
    unfolding resolve_all
    unresolved-resolve_all [] r = sym (append-nil r.unresolved)
    unresolved-resolve_all (c ∷ cs) r =
        unresolved-resolve_all cs (add_candidate strip lower normalize_title rel_map c (f c) r)
        ∙ unresolved-add_candidate c (f c) r (filter (λ d. not (is_some (f d))) cs)

    IsNodup-add_target :
        (c : String) (a : Article) (bs : List ResolvedBacklink)
        → IsNodup (ids bs)
        → IsNodup (ids (add_target strip lower normalize_title rel_map c a bs))
    unfolding add_target
    IsNodup-add_target c a bs h =
        elim (Bool-cases (is_some (get_row ResolvedBacklink.target_id a.id bs))) [
          | inl there ↦ rw there h
          | inr absent ↦
              rw (absent, ids-append)
                (IsNodup-append (ids bs) a.id h (contains-ids a.id bs ∙ absent))
        ]

    contains-add_target :
        (k c : String) (a : Article) (bs : List ResolvedBacklink)
        → contains (ids (add_target strip lower normalize_title rel_map c a bs)) k
          ≡ (contains (ids bs) k || k == a.id)
    unfolding add_target
    contains-add_target k c a bs =
        elim (Bool-cases (is_some (get_row ResolvedBacklink.target_id a.id bs))) [
          | inl there ↦ rw there (ground (arith, contains-ids a.id bs, there, eq_iff k a.id))
          | inr absent ↦
              rw (absent, ids-append) (ground (arith, contains-append (ids bs) (a.id ∷ []) k))
        ]

    IsTarget-add_target :
        (c : String) (a : Article) (bs : List ResolvedBacklink)
        → f c ≡ some a
        → All IsTarget bs
        → All IsTarget (add_target strip lower normalize_title rel_map c a bs)
    unfolding add_target
    IsTarget-add_target c a bs e h =
        elim (Bool-cases (is_some (get_row ResolvedBacklink.target_id a.id bs))) [
          | inl there ↦ rw there h
          | inr absent ↦ rw absent (All-append IsTarget bs _ h ((a, e, refl, refl), tt))
        ]

    -- What the loop keeps, and what it has at the end.
    pub record Resolves (r : ResolvedBacklinks) : Type 0 where
      pub distinct : IsNodup (ids r.resolved)
      pub targets : All IsTarget r.resolved

    Resolves-add_candidate :
        (c : String) (r : ResolvedBacklinks)
        → Resolves r
        → Resolves (add_candidate strip lower normalize_title rel_map c (f c) r)
    unfolding add_candidate
    Resolves-add_candidate c r h = elim (Option-cases (f c)) [
      | inl missing ↦
          rw (missing, add_candidate) (record { distinct = h.distinct; targets = h.targets })
      | inr (a, found) ↦
          rw (found, add_candidate)
            (record {
              distinct = IsNodup-add_target c a r.resolved h.distinct;
              targets = IsTarget-add_target c a r.resolved found h.targets;
            })
    ]

    Resolves-resolve_all :
        (cs : List String) (r : ResolvedBacklinks)
        → Resolves r
        → Resolves (resolve_all strip lower normalize_title rel_map f cs r)
    unfolding resolve_all
    Resolves-resolve_all [] r h = h
    Resolves-resolve_all (c ∷ cs) r h = Resolves-resolve_all cs _ (Resolves-add_candidate c r h)

    contains-add_candidate :
        (k c : String) (o : Option Article) (r : ResolvedBacklinks)
        → contains (ids r.resolved) k ≡ true
        → contains (ids (add_candidate strip lower normalize_title rel_map c o r).resolved) k ≡ true
    unfolding add_candidate
    contains-add_candidate k c none r h = h
    contains-add_candidate k c (some a) r h =
        ground (arith, contains-add_target k c a r.resolved, h)

    contains-resolve_all :
        (k : String) (cs : List String) (r : ResolvedBacklinks)
        → contains (ids r.resolved) k ≡ true
        → contains (ids (resolve_all strip lower normalize_title rel_map f cs r).resolved) k ≡ true
    unfolding resolve_all
    contains-resolve_all k [] r h = h
    contains-resolve_all k (c ∷ cs) r h =
        contains-resolve_all k cs _ (contains-add_candidate k c (f c) r h)

    covers_one :
        (c : String) (o : Option Article) (cs : List String) (r : ResolvedBacklinks)
        → Covers
            (resolve_all strip lower normalize_title rel_map f cs
              (add_candidate strip lower normalize_title rel_map c o r))
            o
    unfolding add_candidate
    covers_one c none cs r = tt
    covers_one c (some a) cs r =
        contains-resolve_all a.id cs _
          (ground (arith, contains-add_target a.id c a r.resolved, eq_refl a.id))

    covers_all :
        (cs : List String) (r : ResolvedBacklinks)
        → All (λ c. Covers (resolve_all strip lower normalize_title rel_map f cs r) (f c)) cs
    unfolding resolve_all
    covers_all [] r = tt
    covers_all (c ∷ cs) r = (covers_one c (f c) cs r, covers_all cs _)

  module _ (user_id : String) (exclude_article_id : Option String) (table : List Article) where
    abbrev pub own_match : String → Option Article
    own_match = match strip lower normalize_title (all_articles user_id exclude_article_id table)

    -- What a result says about the candidates, given the article that each one matches.
    pub record Answers (candidates : List String) (r : ResolvedBacklinks) : Type 0 where
      pub unmatched :
          r.unresolved
          ≡ filter
              (λ c. not (is_some (own_match c)))
              (cleaned strip lower normalize_title candidates)
      pub once : IsNodup (ids r.resolved)
      pub entries : All (IsTarget own_match) r.resolved
      pub complete :
          All
            (λ c. Covers own_match r (own_match c))
            (cleaned strip lower normalize_title candidates)

    resolve_all_lem :
        (candidates : List String)
        → Answers candidates (
            resolve_all strip lower normalize_title rel_map own_match
              (cleaned strip lower normalize_title candidates)
              (record { resolved = []; unresolved = [] }))
    resolve_all_lem candidates =
        let words = cleaned strip lower normalize_title candidates in
        let start : ResolvedBacklinks = record { resolved = []; unresolved = [] } in
        let kept =
          Resolves-resolve_all own_match words start (record { distinct = tt; targets = tt }) in
        record {
          unmatched = unresolved-resolve_all own_match words start;
          once = kept.distinct;
          entries = kept.targets;
          complete = covers_all own_match words start;
        }

    -- The candidates without a matching article are left over in their order; each article that a
    -- candidate matches has exactly one entry; and every entry is the article that its candidate
    -- matches.
    pub resolve_backlink_candidates_lem :
        (candidates : List String)
        → Answers candidates (
            resolve_backlink_candidates strip lower normalize_title rel_map user_id
              exclude_article_id table candidates)
    unfolding resolve_backlink_candidates
    resolve_backlink_candidates_lem candidates =
        let articles = all_articles user_id exclude_article_id table in
        let found =
          target_of strip lower normalize_title (by_lower strip lower normalize_title articles [])
            (by_normalized strip lower normalize_title articles []) in
        let same : own_match ≡ found =
          λ i c. sym (target_of_lem strip lower normalize_title articles c) i in
        subst
          (λ f. Answers candidates (
            resolve_all strip lower normalize_title rel_map f
              (cleaned strip lower normalize_title candidates)
              (record { resolved = []; unresolved = [] })))
          same (resolve_all_lem candidates)
