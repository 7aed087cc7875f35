-- ===== src/Taxonomy.antt =====
-- services/taxonomy.py: the concept rows, their article counts, and the hierarchy that a language
-- model proposes for them.
pub mod Climbing
pub mod Cycles
pub mod Depth
pub mod Rebuild
pub mod Counts
mod Examples
use wikimind.Prelude.{
  ℕ, zero, suc, ◌+◌, String, ◌==◌, Bool, true, false, not, ◌&&◌, ◌||◌, Option, none, some, List, [],
  ◌∷◌, map, length, filter, any, contains, is_some, if◌then◌else◌, Result, ok, err, truthy, get_row,
  save_row,
}

-- models/tables/wiki.py `Concept`: the columns that the taxonomy reads and writes. A user has one
-- row per name.
pub record Concept : Type 0 where
  pub id : String
  pub user_id : String
  pub name : String
  pub parent_id : Option String
  pub article_count : ℕ

-- An object of the model's answer, whose two values are texts where they are there; an item that is
-- no object is none in `Hierarchy`.
pub record Proposal : Type 0 where
  pub name : Option String
  pub parent : Option String

-- The answer's JSON: an array, or something else.
pub data Hierarchy : Type 0 where
  no_list : Hierarchy
  listed : List (Option Proposal) → Hierarchy

-- An item of the dictionary `parent_mapping`.
pub record Parent : Type 0 where
  pub name : String
  pub parent : Option String

unfoldable pub concepts_of : String → List Concept → List Concept
concepts_of user_id concepts = filter (λ c. c.user_id == user_id) concepts

-- `{c.name: c for c in all_concepts}` over what is there already.
unfoldable pub concept_map : List Concept → List Concept → List Concept
concept_map [] known = known
concept_map (c ∷ cs) known = concept_map cs (save_row Concept.name c known)

-- `parent if parent and parent in concept_map else None`
unfoldable pub known_parent : List Concept → Option String → Option String
known_parent known parent = elim (truthy parent) [
  | none ↦ none
  | some p ↦ if is_some (get_row Concept.name p known) then some p else none
]

unfoldable pub add_proposal : List Concept → Option Proposal → List Parent → List Parent
unfolding known_parent
add_proposal known none mapping = mapping
add_proposal known (some entry) mapping = elim (truthy entry.name) [
  | none ↦ mapping
  | some n ↦
      if is_some (get_row Concept.name n known)
      then save_row Parent.name (record { name = n; parent = known_parent known entry.parent })
          mapping
      else mapping
]

-- The mapping that the entries add to one that is there.
unfoldable pub build_parent_mapping :
    List Concept → List (Option Proposal) → List Parent → List Parent
unfolding add_proposal
build_parent_mapping known [] mapping = mapping
build_parent_mapping known (entry ∷ entries) mapping =
    build_parent_mapping known entries (add_proposal known entry mapping)

parent_in : Option Parent → Option String
parent_in none = none
parent_in (some row) = row.parent

-- `parent_mapping.get(name)`
unfoldable pub parent_of : List Parent → String → Option String
unfolding parent_in
parent_of mapping name = parent_in (get_row Parent.name name mapping)

-- The `while` loop of `_has_cycles`, none where the fuel runs out.
unfoldable pub walk : ℕ → List Parent → List String → Option String → Option Bool
unfolding parent_of
walk zero mapping visited current = none
walk (suc fuel) mapping visited none = some false
walk (suc fuel) mapping visited (some c) =
    let rest = walk fuel mapping (c ∷ visited) (parent_of mapping c) in
    if contains visited c then some true else rest

or_next : Option Bool → Option Bool → Option Bool
or_next none rest = none
or_next (some true) rest = some true
or_next (some false) rest = rest

-- The `for` loop of `_has_cycles` over the names that are left.
unfoldable pub any_cycle : ℕ → List Parent → List Parent → Option Bool
unfolding walk or_next
any_cycle fuel mapping [] = some false
any_cycle fuel mapping (row ∷ rows) =
    or_next (walk fuel mapping [] (some row.name)) (any_cycle fuel mapping rows)

unfoldable pub has_cycles : List Parent → Option Bool
unfolding any_cycle
has_cycles mapping = any_cycle (suc (suc (length mapping))) mapping mapping

-- The `while` loop of `_exceeds_max_depth` with so many levels left.
unfoldable pub too_deep : ℕ → List Parent → Option String → Bool
unfolding parent_of
too_deep levels mapping none = false
too_deep zero mapping (some c) = true
too_deep (suc levels) mapping (some c) = too_deep levels mapping (parent_of mapping c)

unfoldable pub exceeds_max_depth : List Parent → ℕ → Bool
unfolding too_deep
exceeds_max_depth mapping max_depth =
    any (λ row. too_deep max_depth mapping (some row.name)) mapping

id_in : Option Concept → Option String
id_in none = none
id_in (some c) = some c.id

-- `concept_map[parent_name].id`: the mapping holds names of `known` only.
unfoldable pub id_of : List Concept → Option String → Option String
unfolding id_in
id_of known none = none
id_of known (some name) = id_in (get_row Concept.name name known)

unfoldable pub set_parent : List Parent → List Concept → Concept → Concept
unfolding parent_of id_of
set_parent mapping known c = record c { parent_id = id_of known (parent_of mapping c.name) }

-- The loop over the user's rows, in the table of all rows.
unfoldable pub apply_parent_mapping :
    String → List Parent → List Concept → List Concept → List Concept
unfolding set_parent
apply_parent_mapping user_id mapping known concepts =
    map (λ c. if c.user_id == user_id then set_parent mapping known c else c) concepts

-- The three guards of `rebuild_taxonomy` and the update behind them.
unfoldable pub apply_valid : ℕ → String → List Parent → List Concept → List Concept → List Concept
unfolding has_cycles exceeds_max_depth apply_parent_mapping
apply_valid max_depth user_id mapping known concepts = elim (has_cycles mapping) [
  | none ↦ concepts
  | some true ↦ concepts
  | some false ↦
      if exceeds_max_depth mapping max_depth
      then concepts
      else apply_parent_mapping user_id mapping known concepts
]

unfoldable pub rebuild_from : ℕ → String → Option Hierarchy → List Concept → List Concept
unfolding concepts_of concept_map build_parent_mapping apply_valid
rebuild_from max_depth user_id none concepts = concepts
rebuild_from max_depth user_id (some no_list) concepts = concepts
rebuild_from max_depth user_id (some (listed entries)) concepts =
    let known = concept_map (concepts_of user_id concepts) [] in
    apply_valid max_depth user_id (build_parent_mapping known entries []) known concepts

-- What is made of the model's answer, or of the exception of its call or of the parser.
unfoldable pub finish_rebuild :
    ℕ → String → List Concept → Result (Option Hierarchy) → Result (List Concept)
unfolding rebuild_from
finish_rebuild max_depth user_id concepts (err e) = err e
finish_rebuild max_depth user_id concepts (ok answer) =
    ok (rebuild_from max_depth user_id answer concepts)

-- `response` asks the language model about the user's concepts, which are given last.
unfoldable pub rebuild_with :
    ℕ
    → String
    → (List Concept → Result (Option Hierarchy))
    → List Concept
    → List Concept
    → Result (List Concept)
unfolding finish_rebuild
rebuild_with max_depth user_id response concepts [] = ok concepts
rebuild_with max_depth user_id response concepts (c ∷ cs) =
    finish_rebuild max_depth user_id concepts (response (c ∷ cs))

unfoldable pub rebuild_taxonomy :
    ℕ → String → (List Concept → Result (Option Hierarchy)) → List Concept → Result (List Concept)
unfolding concepts_of rebuild_with
rebuild_taxonomy max_depth user_id response concepts =
    rebuild_with max_depth user_id response concepts (concepts_of user_id concepts)
