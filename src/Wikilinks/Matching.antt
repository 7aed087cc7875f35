-- ===== src/Wikilinks/Matching.antt =====
-- engine/wikilink_resolver.py: the lookup tables find the oldest article with a matching title.
use wikimind.Prelude.{
  String, ◌==◌, ◌≡◌, refl, ap, ◌∙◌, sym, Bool, true, false, Option, none, some, List, [], ◌∷◌, find,
  if◌then◌else◌, get_row, get_row-append, arith, eq_iff, eq_sym, Bool-cases, inl, inr,
}
use wikimind.Wikilinks.{
  Article, Titled, add_first, article_in, article_at, by_lower, by_normalized, or_normalized,
  target_of,
}

abbrev pub or_else : Option Article → Option Article → Option Article
or_else none b = b
or_else (some a) b = some a

article_at-add_first :
    (k key : String) (a : Article) (dict : List Titled)
    → article_at k (add_first key a dict)
      ≡ or_else (article_at k dict) (if key == k then some a else none)
unfolding article_at article_in add_first
article_at-add_first k key a dict =
    ground
      (arith, get_row-append Titled.key k dict (record { key = key; article = a }), eq_iff key k)

or_else_assoc : (a b c : Option Article) → or_else (or_else a b) c ≡ or_else a (or_else b c)
or_else_assoc none b c = refl
or_else_assoc (some a) b c = refl

or_else-none : (a : Option Article) → or_else a none ≡ a
or_else-none none = refl
or_else-none (some a) = refl

or_else-if :
    (b : Bool) (a : Article) (rest : Option Article)
    → or_else (if b then some a else none) rest ≡ (if b then some a else rest)
or_else-if true a rest = refl
or_else-if false a rest = refl

module _ (strip lower normalize_title : String → String) where
  by_lower_lem :
      (k : String) (items : List Article) (dict : List Titled)
      → article_at k (by_lower strip lower normalize_title items dict)
        ≡ or_else (article_at k dict) (find (λ a. lower a.title == k) items)
  unfolding by_lower
  by_lower_lem k [] dict = sym (or_else-none (article_at k dict))
  by_lower_lem k (a ∷ items) dict =
      by_lower_lem k items (add_first (lower a.title) a dict)
      ∙ ap (λ o. or_else o (find (λ b. lower b.title == k) items))
          (article_at-add_first k (lower a.title) a dict)
      ∙ or_else_assoc (article_at k dict) (if lower a.title == k then some a else none) _
      ∙ ap (or_else (article_at k dict)) (or_else-if (lower a.title == k) a _)

  -- One article's turn in the second table.
  article_at-add_normalized :
      (k : String) (a : Article) (dict : List Titled)
      → (k == "") ≡ false
      → article_at k (
          if normalize_title a.title == ""
          then dict
          else add_first (normalize_title a.title) a dict)
        ≡ or_else (article_at k dict) (if normalize_title a.title == k then some a else none)
  article_at-add_normalized k a dict named = elim (Bool-cases (normalize_title a.title == "")) [
    | inl empty ↦
        let e : normalize_title a.title ≡ "" = (eq_iff (normalize_title a.title) "").0 empty in
        let differs : (normalize_title a.title == k) ≡ false =
          ap (λ t. t == k) e ∙ eq_sym "" k ∙ named in
        rw (empty, differs) (sym (or_else-none (article_at k dict)))
    | inr title ↦ rw title (article_at-add_first k (normalize_title a.title) a dict)
  ]

  by_normalized_lem :
      (k : String) (items : List Article) (dict : List Titled)
      → (k == "") ≡ false
      → article_at k (by_normalized strip lower normalize_title items dict)
        ≡ or_else (article_at k dict) (find (λ a. normalize_title a.title == k) items)
  unfolding by_normalized
  by_normalized_lem k [] dict named = sym (or_else-none (article_at k dict))
  by_normalized_lem k (a ∷ items) dict named =
      by_normalized_lem k items _ named
      ∙ ap (λ o. or_else o (find (λ b. normalize_title b.title == k) items))
          (article_at-add_normalized k a dict named)
      ∙ or_else_assoc (article_at k dict) (if normalize_title a.title == k then some a else none) _
      ∙ ap (or_else (article_at k dict)) (or_else-if (normalize_title a.title == k) a _)

  -- The first article with the candidate's title, upper and lower case aside, and without one the
  -- first whose normalized title is the candidate's, if that is not empty.
  abbrev pub match : List Article → String → Option Article
  match items c = or_else (find (λ a. lower a.title == lower c) items) (
      if normalize_title c == ""
      then none
      else find (λ a. normalize_title a.title == normalize_title c) items)

  or_normalized_lem :
      (first : Option Article) (c : String) (items : List Article)
      → or_normalized strip lower normalize_title first c
          (by_normalized strip lower normalize_title items [])
        ≡ or_else first (
            if normalize_title c == ""
            then none
            else find (λ a. normalize_title a.title == normalize_title c) items)
  unfolding or_normalized get_row
  or_normalized_lem (some a) c items = refl
  or_normalized_lem none c items = elim (Bool-cases (normalize_title c == "")) [
    | inl empty ↦ rw empty refl
    | inr named ↦ rw named (by_normalized_lem (normalize_title c) items [] named)
  ]

  -- The two lookup tables, built once from the articles, find for every candidate what a search
  -- through the articles finds: the first one with the same title in lower case, else the first
  -- one with the same normalized title.
  pub target_of_lem :
      (items : List Article) (c : String)
      → target_of strip lower normalize_title
          (by_lower strip lower normalize_title items [])
          (by_normalized strip lower normalize_title items [])
          c
        ≡ match items c
  unfolding target_of get_row
  target_of_lem items c =
      ap
        (λ o.
          or_normalized strip lower normalize_title o c
            (by_normalized strip lower normalize_title items []))
        (by_lower_lem (lower c) items [])
      ∙ or_normalized_lem (find (λ a. lower a.title == lower c) items) c items
