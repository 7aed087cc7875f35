-- ===== src/Conversations/Growth.antt =====
-- The table of conversations: a fork's parent is older than the fork.
use wikimind.Prelude.{
  ℕ, String, ◌==◌, ◌≡◌, refl, Bool, true, none, some, List, [], ◌∷◌, is_some, get_row, update_row,
  arith, eq_iff, Option-cases, Bool-cases, inl, inr,
}
use wikimind.Conversations.{Conversation, touch}

unfoldable pub parent_in : List Conversation → Conversation → Bool
parent_in cs c = elim c.parent_conversation_id [
  | none ↦ true
  | some parent_id ↦ is_some (get_row Conversation.id parent_id cs)
]

-- Ids are distinct, and the parent of each conversation is among the older ones.
unfoldable pub IsGrown : List Conversation → Type 0
unfolding parent_in
IsGrown [] = Unit
IsGrown (c ∷ cs) = (get_row Conversation.id c.id cs ≡ none) × (parent_in cs c ≡ true) × IsGrown cs

is_some-touched :
    (k j : String) (now : ℕ) (cs : List Conversation)
    → is_some (get_row Conversation.id j (update_row Conversation.id k (touch now) cs))
      ≡ is_some (get_row Conversation.id j cs)
unfolding get_row update_row touch
is_some-touched k j now [] = refl
is_some-touched k j now (c ∷ cs) = ground (arith, is_some-touched k j now cs)

absent-touched :
    (k j : String) (now : ℕ) (cs : List Conversation)
    → get_row Conversation.id j cs ≡ none
    → get_row Conversation.id j (update_row Conversation.id k (touch now) cs) ≡ none
unfolding get_row update_row touch
absent-touched k j now [] h = refl
absent-touched k j now (c ∷ cs) h = ground (arith, absent-touched k j now cs)

parent_in-touched :
    (k : String) (now : ℕ) (cs : List Conversation) (c : Conversation)
    → parent_in (update_row Conversation.id k (touch now) cs) c ≡ parent_in cs c
unfolding parent_in
parent_in-touched k now cs c = elim (Option-cases c.parent_conversation_id) [
  | inl none_there ↦ rw none_there refl
  | inr (parent_id, there) ↦ rw there (is_some-touched k parent_id now cs)
]

pub IsGrown-touched :
    (k : String) (now : ℕ) (cs : List Conversation)
    → IsGrown cs
    → IsGrown (update_row Conversation.id k (touch now) cs)
unfolding IsGrown update_row touch
IsGrown-touched k now [] g = tt
IsGrown-touched k now (c ∷ cs) g = elim (Bool-cases (c.id == k)) [
  | inl same ↦ rw same (g.0, g.1, g.2)
  | inr other ↦ rw other (
    absent-touched k c.id now cs g.0,
    rw (parent_in-touched k now cs c) g.1,
    IsGrown-touched k now cs g.2,
  )
]

-- The parent of a conversation of the table is in the table.
pub parent-there :
    (k parent_id : String) (c : Conversation) (cs : List Conversation)
    → IsGrown cs
    → get_row Conversation.id k cs ≡ some c
    → c.parent_conversation_id ≡ some parent_id
    → is_some (get_row Conversation.id parent_id cs) ≡ true
unfolding IsGrown parent_in get_row
parent-there k parent_id c [] g h p = absurd (ground arith)
parent-there k parent_id c (d ∷ cs) g h p = elim (Bool-cases (d.id == k)) [
  | inl same ↦ ground arith
  | inr other ↦ ground (arith, parent-there k parent_id c cs)
]

-- A conversation that is there is found past a newer one.
pub get_row-older :
    (k : String) (c d : Conversation) (cs : List Conversation)
    → IsGrown (d ∷ cs)
    → get_row Conversation.id k cs ≡ some c
    → get_row Conversation.id k (d ∷ cs) ≡ some c
unfolding IsGrown get_row
get_row-older k c d cs g h = ground (arith, eq_iff d.id k)
