-- ===== src/Taxonomy/Depth.antt =====
-- services/taxonomy.py `rebuild_taxonomy`: the depth of the hierarchy that is written.
use wikimind.Prelude.{
  ℕ, zero, suc, String, ◌≡◌, false, Option, none, some, List, [], ◌∷◌, any, All, All-map, arith,
}
use wikimind.Taxonomy.{Parent, parent_of, too_deep, exceeds_max_depth, has_cycles}
use wikimind.Taxonomy.Climbing.{climb, climb-none}
use wikimind.Taxonomy.Cycles.{has_cycles_lem}

module _ (mapping : List Parent) where
  too_deep_iff :
      (levels : ℕ) (current : Option String)
      → too_deep levels mapping current ≡ false
      → climb levels mapping current ≡ none
  unfolding too_deep
  too_deep_iff levels none h = climb-none levels mapping
  too_deep_iff zero (some c) h = absurd (ground arith)
  too_deep_iff (suc levels) (some c) h = too_deep_iff levels (parent_of mapping c) h

  pub depth_kept :
      (max_depth : ℕ) (rows : List Parent)
      → any (λ row. too_deep max_depth mapping (some row.name)) rows ≡ false
      → All (λ row. climb max_depth mapping (some row.name) ≡ none) rows
  depth_kept max_depth [] h = tt
  depth_kept max_depth (row ∷ rows) h = (
    too_deep_iff max_depth (some row.name) (ground arith),
    depth_kept max_depth rows (ground arith),
  )

  -- A hierarchy within the depth limit passes the cycle check too.
  pub has_cycles-exceeds_max_depth :
      (max_depth : ℕ)
      → exceeds_max_depth mapping max_depth ≡ false
      → has_cycles mapping ≡ some false
  unfolding exceeds_max_depth
  has_cycles-exceeds_max_depth max_depth h =
      (has_cycles_lem mapping).1.1
        (All-map (λ row ends. (max_depth, ends)) mapping (depth_kept max_depth mapping h))
