-- ===== src/Conversations/Ends.antt =====
-- The walk over a conversation's ancestors: it ends, and it does not see what is newer.
use wikimind.Prelude.{
  ℕ, zero, suc, String, ◌==◌, ◌≡◌, ◌≤◌, refl, sym, subst, ◌∙◌, true, Option, none, some, List, [],
  ◌∷◌, is_some, get_row, length, arith, Option-cases, Bool-cases, inl, inr,
}
use mathlib.Core.Option.{some-injective}
use wikimind.Conversations.{Conversation, Db, walk, inherited, materialize_thread}
use wikimind.Conversations.Growth.{IsGrown, parent_in, parent-there, get_row-older}

pub found : {A : Type 0} → (o : Option A) → is_some o ≡ true → (a : A) × (o ≡ some a)
found none h = absurd (ground arith)
found (some a) h = (a, refl)

pub walk_up :
    (fuel fork_at : ℕ) (parent_id : String) (c parent : Conversation) (cs : List Conversation)
    (ancestors : List (String × ℕ))
    → c.parent_conversation_id ≡ some parent_id
    → c.forked_at_turn_index ≡ some fork_at
    → get_row Conversation.id parent_id cs ≡ some parent
    → walk (suc fuel) cs c ancestors ≡ walk fuel cs parent ((parent_id, fork_at) ∷ ancestors)
unfolding walk
walk_up fuel fork_at parent_id c parent cs ancestors p f there = rw (p, f, there) refl

-- A newer conversation is not on the way from an older one to its ancestors.
pub walk-cons :
    (fuel : ℕ) (k : String) (c d : Conversation) (cs : List Conversation)
    (ancestors : List (String × ℕ))
    → IsGrown (d ∷ cs)
    → get_row Conversation.id k cs ≡ some c
    → walk fuel (d ∷ cs) c ancestors ≡ walk fuel cs c ancestors
unfolding walk IsGrown
walk-cons zero k c d cs ancestors g h = refl
walk-cons (suc fuel) k c d cs ancestors g h = elim (Option-cases c.parent_conversation_id) [
  | inl no_parent ↦ rw no_parent refl
  | inr (parent_id, p) ↦ elim (Option-cases c.forked_at_turn_index) [
    | inl no_turn ↦ rw (p, no_turn) refl
    | inr (fork_at, f) ↦
        let (parent, there) =
          found (get_row Conversation.id parent_id cs) (parent-there k parent_id c cs g.2 h p) in
        let further = (parent_id, fork_at) ∷ ancestors in
        walk_up fuel fork_at parent_id c parent (d ∷ cs) ancestors p f
          (get_row-older parent_id parent d cs g there)
        ∙ walk-cons fuel parent_id parent d cs further g there
        ∙ sym (walk_up fuel fork_at parent_id c parent cs ancestors p f there)
  ]
]

abbrev pub IsEnding : ℕ → List Conversation → Conversation → List (String × ℕ) → Type 0
IsEnding fuel cs c ancestors =
    (result : List (String × ℕ)) × (walk fuel cs c ancestors ≡ some result)

-- From the newest conversation the walk goes on among the older ones.
ends_above :
    (fuel : ℕ) (c : Conversation) (cs : List Conversation) (ancestors : List (String × ℕ))
    → IsGrown (c ∷ cs)
    → ((k : String) (parent : Conversation) (further : List (String × ℕ))
        → get_row Conversation.id k cs ≡ some parent
        → IsEnding fuel cs parent further)
    → IsEnding (suc fuel) (c ∷ cs) c ancestors
unfolding walk IsGrown parent_in
ends_above fuel c cs ancestors g ends = elim (Option-cases c.parent_conversation_id) [
  | inl no_parent ↦ (ancestors, rw no_parent refl)
  | inr (parent_id, p) ↦ elim (Option-cases c.forked_at_turn_index) [
    | inl no_turn ↦ (ancestors, rw (p, no_turn) refl)
    | inr (fork_at, f) ↦
        let (parent, there) =
          found (get_row Conversation.id parent_id cs) (ground (arith, p, g.1)) in
        let further = (parent_id, fork_at) ∷ ancestors in
        let (result, e) = ends parent_id parent further there in
        (
          result,
          walk_up fuel fork_at parent_id c parent (c ∷ cs) ancestors p f
                (get_row-older parent_id parent c cs g there)
              ∙ walk-cons fuel parent_id parent c cs further g there
              ∙ e,
        )
  ]
]

-- As many steps as there are conversations, and one more, are enough.
pub walk_ends :
    (fuel : ℕ) (k : String) (c : Conversation) (cs : List Conversation)
    (ancestors : List (String × ℕ))
    → IsGrown cs
    → get_row Conversation.id k cs ≡ some c
    → length cs ≤ fuel
    → IsEnding fuel cs c ancestors
unfolding walk IsGrown get_row
walk_ends fuel k c [] ancestors g h enough = absurd (ground arith)
walk_ends zero k c (d ∷ cs) ancestors g h enough = absurd (omega arith)
walk_ends (suc fuel) k c (d ∷ cs) ancestors g h enough = elim (Bool-cases (d.id == k)) [
  | inl same ↦
      subst (λ x. IsEnding (suc fuel) (d ∷ cs) x ancestors) (some-injective d c (ground arith))
        (ends_above fuel d cs ancestors g
          (λ j parent further there. walk_ends fuel j parent cs further g.2 there (omega arith)))
  | inr other ↦
      let older : get_row Conversation.id k cs ≡ some c = ground arith in
      let (result, e) = walk_ends (suc fuel) k c cs ancestors g.2 older (omega arith) in
      (result, walk-cons (suc fuel) k c d cs ancestors g older ∙ e)
]

-- The thread of a conversation of the table is there: the loop over its parents ends.
pub materialize_thread_ends :
    (k : String) (c : Conversation) (db : Db)
    → IsGrown db.conversations
    → get_row Conversation.id k db.conversations ≡ some c
    → is_some (materialize_thread c db) ≡ true
unfolding materialize_thread inherited
materialize_thread_ends k c db g h =
    let (result, e) =
      walk_ends (suc (length db.conversations)) k c db.conversations [] g h (omega arith) in
    rw e refl
