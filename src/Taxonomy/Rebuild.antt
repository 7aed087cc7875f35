-- ===== src/Taxonomy/Rebuild.antt =====
-- services/taxonomy.py `rebuild_taxonomy`: the hierarchy by `parent_id` that is written.
use mathlib.Core.Option
use wikimind.Prelude.{
  ℕ, zero, suc, ◌<◌, String, ◌==◌, ◌≡◌, ◌⊎◌, inl, inr, refl, ap, ◌∙◌, sym, true, false, Option,
  none, some, List, [], ◌∷◌, map, All, get_row, save_row, All-get_row, All-save_row, get_row-map,
  key-get_row, if◌then◌else◌, arith, Bool-cases, Option-cases, Result, ok, err,
}
use wikimind.Taxonomy.{
  Concept, Hierarchy, no_list, listed, Parent, concepts_of, concept_map, build_parent_mapping,
  parent_of, parent_in, exceeds_max_depth, id_of, id_in, set_parent, apply_parent_mapping,
  apply_valid, rebuild_from, finish_rebuild, rebuild_with, rebuild_taxonomy, has_cycles,
}
use wikimind.Taxonomy.Depth.{depth_kept, has_cycles-exceeds_max_depth}
use wikimind.Taxonomy.Climbing.{climb, climb-none}

abbrev pub parent_by_id : Option Concept → Option String
parent_by_id none = none
parent_by_id (some c) = c.parent_id

abbrev pub step_ids : List Concept → Option String → Option String
step_ids concepts none = none
step_ids concepts (some id) = parent_by_id (get_row Concept.id id concepts)

-- So many steps up the stored hierarchy, by `parent_id`.
abbrev pub climb_ids : ℕ → List Concept → Option String → Option String
climb_ids zero concepts current = current
climb_ids (suc n) concepts current = climb_ids n concepts (step_ids concepts current)

climb_ids-none : (n : ℕ) (concepts : List Concept) → climb_ids n concepts none ≡ none
climb_ids-none zero concepts = refl
climb_ids-none (suc n) concepts = climb_ids-none n concepts

-- No two rows have the same id.
abbrev pub HasUniqueIds : List Concept → Type 0
HasUniqueIds concepts = All (λ c. get_row Concept.id c.id concepts ≡ some c) concepts

-- Each of the user's concepts has fewer than so many ancestors.
abbrev pub Shallow : ℕ → String → List Concept → Type 0
Shallow max_depth user_id concepts =
    All (λ c. (c.user_id == user_id) ≡ true → climb_ids max_depth concepts (some c.id) ≡ none)
      concepts

module _ (user_id : String) (table : List Concept) (unique : HasUniqueIds table) where
  -- A row of the table that is the user's.
  abbrev IsOwn : Concept → Type 0
  IsOwn c = (get_row Concept.id c.id table ≡ some c) × ((c.user_id == user_id) ≡ true)

  IsOwn-concepts_of :
      (cs : List Concept)
      → All (λ c. get_row Concept.id c.id table ≡ some c) cs
      → All IsOwn (concepts_of user_id cs)
  unfolding concepts_of
  IsOwn-concepts_of [] h = tt
  IsOwn-concepts_of (c ∷ cs) h = elim (Bool-cases (c.user_id == user_id)) [
    | inl own ↦ rw own ((h.0, own), IsOwn-concepts_of cs h.1)
    | inr other ↦ rw other (IsOwn-concepts_of cs h.1)
  ]

  IsOwn-concept_map :
      (cs known : List Concept) → All IsOwn cs → All IsOwn known → All IsOwn (concept_map cs known)
  unfolding concept_map
  IsOwn-concept_map [] known h hs = hs
  IsOwn-concept_map (c ∷ cs) known h hs =
      IsOwn-concept_map cs (save_row Concept.name c known) h.1
        (All-save_row Concept.name IsOwn c known h.0 hs)

  module _ (mapping : List Parent) (known : List Concept) (knows : All IsOwn known) where
    after : Concept → Concept
    unfolding set_parent
    after c = if c.user_id == user_id then set_parent mapping known c else c

    id-after : (c : Concept) → (after c).id ≡ c.id
    unfolding after set_parent
    id-after c = ground arith

    user_id-after : (c : Concept) → (after c).user_id ≡ c.user_id
    unfolding after set_parent
    user_id-after c = ground arith

    stored_parent :
        (c : Concept)
        → IsOwn c
        → parent_by_id (get_row Concept.id c.id (apply_parent_mapping user_id mapping known table))
          ≡ id_of known (parent_of mapping c.name)
    unfolding apply_parent_mapping after set_parent
    stored_parent c (there, own) =
        ap parent_by_id (get_row-map Concept.id after c.id table id-after)
        ∙ ap (λ o. parent_by_id (Option.map after o)) there
        ∙ rw own refl

    abbrev stored : List Concept
    stored = apply_parent_mapping user_id mapping known table

    -- A chain of names that ends makes a chain of rows that ends as soon.
    abbrev Follows : ℕ → Type 0
    Follows levels =
        (c : Concept)
        → IsOwn c
        → climb levels mapping (some c.name) ≡ none
        → climb_ids levels stored (some c.id) ≡ none

    next_climb :
        (levels : ℕ) (parent : Option String)
        → Follows levels
        → climb levels mapping parent ≡ none
        → climb_ids levels stored (id_of known parent) ≡ none
    unfolding id_of id_in
    next_climb levels none follows h = climb_ids-none levels stored
    next_climb levels (some p) follows h = elim (Option-cases (get_row Concept.name p known)) [
      | inl absent ↦ rw (absent, id_in) (climb_ids-none levels stored)
      | inr (d, there) ↦
          rw (there, id_in)
            (follows d (All-get_row Concept.name IsOwn p known d knows there) (
              ap (λ n. climb levels mapping (some n)) (key-get_row Concept.name p known d there)
              ∙ h))
    ]

    rows_climb : (levels : ℕ) → Follows levels
    rows_climb zero c own h = absurd (ground arith)
    rows_climb (suc levels) c own h =
        rw (stored_parent c own)
          (next_climb levels (parent_of mapping c.name) (rows_climb levels) h)

    -- A name without an entry in the mapping becomes a root.
    name_climb :
        (levels : ℕ) (name : String)
        → 0 < levels
        → All (λ row. climb levels mapping (some row.name) ≡ none) mapping
        → climb levels mapping (some name) ≡ none
    unfolding parent_of parent_in
    name_climb zero name lt h = absurd (ground arith)
    name_climb (suc levels) name lt h = elim (Option-cases (get_row Parent.name name mapping)) [
      | inl absent ↦ rw (absent, parent_in) (climb-none levels mapping)
      | inr (row, there) ↦
          ap (λ n. climb (suc levels) mapping (some n))
            (sym (key-get_row Parent.name name mapping row there))
          ∙ All-get_row Parent.name (λ row. climb (suc levels) mapping (some row.name) ≡ none) name
              mapping row h there
    ]

    shallow_rows :
        (levels : ℕ) (cs : List Concept)
        → 0 < levels
        → All (λ row. climb levels mapping (some row.name) ≡ none) mapping
        → All (λ c. get_row Concept.id c.id table ≡ some c) cs
        → All
            (λ c. (c.user_id == user_id) ≡ true → climb_ids levels stored (some c.id) ≡ none)
            (map after cs)
    shallow_rows levels [] lt h hs = tt
    shallow_rows levels (c ∷ cs) lt h (there, hs) = (
      λ own. rw (id-after c) (
          rows_climb levels c (there, ap (λ u. u == user_id) (sym (user_id-after c)) ∙ own)
            (name_climb levels c.name lt h)),
      shallow_rows levels cs lt h hs,
    )

    Shallow-apply_parent_mapping :
        (max_depth : ℕ)
        → 0 < max_depth
        → exceeds_max_depth mapping max_depth ≡ false
        → Shallow max_depth user_id stored
    unfolding apply_parent_mapping after exceeds_max_depth
    Shallow-apply_parent_mapping max_depth lt h =
        shallow_rows max_depth table lt (depth_kept mapping max_depth mapping h) unique

  -- What a rebuild may leave of the table.
  abbrev Kept : ℕ → List Concept → Type 0
  Kept max_depth result = (result ≡ table) ⊎ Shallow max_depth user_id result

  Kept-apply_valid :
      (max_depth : ℕ) (mapping : List Parent) (known : List Concept)
      → 0 < max_depth
      → All IsOwn known
      → Kept max_depth (apply_valid max_depth user_id mapping known table)
  unfolding apply_valid
  Kept-apply_valid max_depth mapping known lt knows =
      elim (Bool-cases (exceeds_max_depth mapping max_depth)) [
        | inl deep ↦ elim (Option-cases (has_cycles mapping)) [
          | inl none_left ↦ rw (none_left, apply_valid) (inl refl)
          | inr (true, e) ↦ rw (e, apply_valid) (inl refl)
          | inr (false, e) ↦ rw (e, apply_valid, deep) (inl refl)
        ]
        | inr shallow ↦
            rw (has_cycles-exceeds_max_depth mapping max_depth shallow, apply_valid, shallow)
              (inr (Shallow-apply_parent_mapping mapping known knows max_depth lt shallow))
      ]

  Kept-rebuild_from :
      (max_depth : ℕ) (answer : Option Hierarchy)
      → 0 < max_depth
      → Kept max_depth (rebuild_from max_depth user_id answer table)
  unfolding rebuild_from
  Kept-rebuild_from max_depth none lt = inl refl
  Kept-rebuild_from max_depth (some no_list) lt = inl refl
  Kept-rebuild_from max_depth (some (listed entries)) lt =
      Kept-apply_valid max_depth
        (build_parent_mapping (concept_map (concepts_of user_id table) []) entries [])
        (concept_map (concepts_of user_id table) []) lt
        (IsOwn-concept_map (concepts_of user_id table) [] (IsOwn-concepts_of table unique) tt)

  -- What a rebuild returns: the table, or the exception of the answer `r`.
  abbrev pub Rebuilt : ℕ → Result (Option Hierarchy) → Result (List Concept) → Type 0
  Rebuilt max_depth r (ok result) = (result ≡ table) ⊎ Shallow max_depth user_id result
  Rebuilt max_depth r (err e) = r ≡ err e

  finish_rebuild_lem :
      (max_depth : ℕ) (r : Result (Option Hierarchy))
      → 0 < max_depth
      → Rebuilt max_depth r (finish_rebuild max_depth user_id table r)
  unfolding finish_rebuild
  finish_rebuild_lem max_depth (err e) lt = refl
  finish_rebuild_lem max_depth (ok answer) lt = Kept-rebuild_from max_depth answer lt

  rebuild_with_lem :
      (max_depth : ℕ) (response : List Concept → Result (Option Hierarchy)) (cs : List Concept)
      → 0 < max_depth
      → Rebuilt max_depth (response cs) (rebuild_with max_depth user_id response table cs)
  unfolding rebuild_with
  rebuild_with_lem max_depth response [] lt = inl refl
  rebuild_with_lem max_depth response (c ∷ cs) lt =
      finish_rebuild_lem max_depth (response (c ∷ cs)) lt

  -- Whatever the language model answers, a rebuild leaves the table as it was or makes it one
  -- where every chain of parents from the user's concepts is no longer than the depth limit, so
  -- that no cycle is stored; it fails only where asking the model fails. The rows have distinct
  -- ids and the limit is positive.
  pub rebuild_taxonomy_lem :
      (max_depth : ℕ) (response : List Concept → Result (Option Hierarchy))
      → 0 < max_depth
      → Rebuilt max_depth
          (response (concepts_of user_id table))
          (rebuild_taxonomy max_depth user_id response table)
  unfolding rebuild_taxonomy
  rebuild_taxonomy_lem max_depth response =
      rebuild_with_lem max_depth response (concepts_of user_id table)
