-- ===== src/Conversations/Branches.antt =====
-- services/query.py `fork_conversation`: a fork leaves every other thread as it is.
use wikimind.Prelude.{
  filter-unmatched, ℕ, zero, suc, String, ◌==◌, ◌≡◌, refl, sym, ap, ◌∙◌, subst, false, ◌&&◌, ltb,
  none, some, List, [], ◌∷◌, ◌++◌, All, get_row, length, arith, Option-cases, inl, inr, key-get_row,
  eq_iff,
}
use mathlib.Core.Option.{some-injective}
use wikimind.Conversations.{
  Conversation, Query, Db, walk, collect, inherited, turns_of, turns_before, materialize_thread,
}
use wikimind.Conversations.Asking.{fork_at}
use wikimind.Conversations.Growth.{IsGrown, parent-there, get_row-older}
use wikimind.Conversations.Ends.{found, walk_up, walk-cons, walk_ends}

pub walk_more :
    (fuel : ℕ) (cs : List Conversation) (c : Conversation) (ancestors result : List (String × ℕ))
    → walk fuel cs c ancestors ≡ some result
    → walk (suc fuel) cs c ancestors ≡ some result
unfolding walk
walk_more zero cs c ancestors result h = absurd (ground arith)
walk_more (suc fuel) cs c ancestors result h = elim (Option-cases c.parent_conversation_id) [
  | inl no_parent ↦ rw no_parent (rw (no_parent) at h)
  | inr (parent_id, p) ↦ elim (Option-cases c.forked_at_turn_index) [
    | inl no_turn ↦ rw (p, no_turn) (rw (p, no_turn) at h)
    | inr (fork_at, f) ↦ elim (Option-cases (get_row Conversation.id parent_id cs)) [
      | inl missing ↦ rw (p, f, missing) (rw (p, f, missing) at h)
      | inr (parent, there) ↦
          rw (p, f, there)
            (walk_more fuel cs parent ((parent_id, fork_at) ∷ ancestors) result
              (rw (p, f, there) at h))
    ]
  ]
]

-- No ancestor has this id.
abbrev IsApart : String → List (String × ℕ) → Type 0
IsApart id ancestors = All (λ a. (id == a.0) ≡ false) ancestors

walk-IsApart :
    (fuel : ℕ) (id k : String) (c : Conversation) (cs : List Conversation)
    (ancestors result : List (String × ℕ))
    → IsGrown cs
    → get_row Conversation.id id cs ≡ none
    → get_row Conversation.id k cs ≡ some c
    → IsApart id ancestors
    → walk fuel cs c ancestors ≡ some result
    → IsApart id result
unfolding walk
walk-IsApart zero id k c cs ancestors result g new h apart e = absurd (ground arith)
walk-IsApart (suc fuel) id k c cs ancestors result g new h apart e =
    elim (Option-cases c.parent_conversation_id) [
      | inl no_parent ↦
          subst (IsApart id) (some-injective ancestors result (rw no_parent at e)) apart
      | inr (parent_id, p) ↦ elim (Option-cases c.forked_at_turn_index) [
        | inl no_turn ↦
            subst (IsApart id) (some-injective ancestors result (rw (p, no_turn) at e)) apart
        | inr (fork_at, f) ↦
            let (parent, there) =
              found (get_row Conversation.id parent_id cs) (parent-there k parent_id c cs g h p) in
            let other : (id == parent_id) ≡ false = ground (arith, eq_iff id parent_id) in
            walk-IsApart fuel id parent_id parent cs ((parent_id, fork_at) ∷ ancestors) result g new
              there (other, apart)
              (sym (walk_up fuel fork_at parent_id c parent cs ancestors p f there) ∙ e)
      ]
    ]

turns_before-other :
    (id : String) (n : ℕ) (q : Query) (qs : List Query)
    → (q.conversation_id == id) ≡ false
    → turns_before id n (qs ++ (q ∷ [])) ≡ turns_before id n qs
unfolding turns_before
turns_before-other id n q qs h =
    rw (filter-unmatched (λ r. r.conversation_id == id && ltb r.turn_index n) q qs (rw h refl)) refl

turns_of-other :
    (id : String) (q : Query) (qs : List Query)
    → (q.conversation_id == id) ≡ false
    → turns_of id (qs ++ (q ∷ [])) ≡ turns_of id qs
unfolding turns_of
turns_of-other id q qs h = rw (filter-unmatched (λ r. r.conversation_id == id) q qs h) refl

collect-other :
    (ancestors : List (String × ℕ)) (q : Query) (qs : List Query)
    → IsApart q.conversation_id ancestors
    → collect ancestors (qs ++ (q ∷ [])) ≡ collect ancestors qs
unfolding collect
collect-other [] q qs apart = refl
collect-other (a ∷ ancestors) q qs apart =
    rw (turns_before-other a.0 a.1 q qs apart.0, collect-other ancestors q qs apart.1) refl

-- Every conversation of `before` is in `after`, with its thread.
unfoldable pub IsKept : Db → Db → Type 0
IsKept before after =
    (k : String) (c : Conversation)
    → get_row Conversation.id k before.conversations ≡ some c
    → (get_row Conversation.id k after.conversations ≡ some c)
      × (materialize_thread c after ≡ materialize_thread c before)

unfoldable pub with_fork : Conversation → Query → Db → Db
with_fork f q db = record { conversations = f ∷ db.conversations; queries = db.queries ++ (q ∷ []) }

inherited-with_fork :
    (f : Conversation) (q : Query) (db : Db) (k : String) (c : Conversation)
    → IsGrown (f ∷ db.conversations)
    → q.conversation_id ≡ f.id
    → get_row Conversation.id k db.conversations ≡ some c
    → inherited c (with_fork f q db) ≡ inherited c db
unfolding inherited with_fork IsGrown
inherited-with_fork f q db k c g same h =
    let cs = db.conversations in
    let (ancestors, e) = walk_ends (suc (length cs)) k c cs [] g.2 h (omega arith) in
    let apart =
      walk-IsApart (suc (length cs)) q.conversation_id k c cs [] ancestors g.2 (rw same g.0) h tt
        e in
    rw
      (
        walk-cons (suc (suc (length cs))) k c f cs [] g h,
        walk_more (suc (length cs)) cs c [] ancestors e,
        e,
      )
      (ap some (collect-other ancestors q db.queries apart))

pub IsKept-with_fork :
    (f : Conversation) (q : Query) (db : Db)
    → IsGrown (f ∷ db.conversations)
    → q.conversation_id ≡ f.id
    → IsKept db (with_fork f q db)
unfolding IsKept IsGrown materialize_thread with_fork
IsKept-with_fork f q db g same k c h =
    let other : (q.conversation_id == c.id) ≡ false = ground (
      arith,
      same,
      h,
      g.0,
      eq_iff q.conversation_id c.id,
      key-get_row Conversation.id k db.conversations c h,
    ) in
    (
      get_row-older k c f db.conversations g h,
      rw (inherited-with_fork f q db k c g same h, turns_of-other c.id q db.queries other) refl,
    )
