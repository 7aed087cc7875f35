-- ===== src/Drafts/Rows.antt =====
-- services/draft.py: a draft that is reviewed, among the rows of drafts.
use wikimind.Prelude.{
  suc, String, ◌==◌, eq_refl, eq_sym, ◌≡◌, refl, Bool, false, some, List, [], ◌∷◌, ◌++◌, find,
  count, any, is_some, IsDistinct, IsDistinct-append, get_row, update_row, get_row-update_row,
  get_row-append, arith, Bool-cases, inl, inr,
}
use wikimind.Drafts.{CompilationDraft, awaits_review}

unfoldable pub same_id : CompilationDraft → CompilationDraft → Bool
same_id new d = d.id == new.id

-- A draft's row that is there and reviewed, among rows of different ids.
pub record IsReviewed (d : CompilationDraft) (drafts : List CompilationDraft) : Type 0 where
  pub stored : get_row CompilationDraft.id d.id drafts ≡ some d
  pub reviewed : (d.status == "pending") ≡ false
  pub distinct : IsDistinct same_id drafts

found_apart :
    (f : CompilationDraft → Bool) (q p : CompilationDraft) (drafts : List CompilationDraft)
    → find f drafts ≡ some p
    → any (same_id q) drafts ≡ false
    → (p.id == q.id) ≡ false
unfolding same_id
found_apart f q p [] found apart = absurd (ground arith)
found_apart f q p (r ∷ drafts) found apart = ground (arith, found_apart f q p drafts)

-- A pending draft that is found has an id of its own.
found_elsewhere :
    (source_id user_id : String) (d p : CompilationDraft) (drafts : List CompilationDraft)
    → IsDistinct same_id drafts
    → get_row CompilationDraft.id d.id drafts ≡ some d
    → (d.status == "pending") ≡ false
    → find (awaits_review source_id user_id) drafts ≡ some p
    → (p.id == d.id) ≡ false
unfolding get_row awaits_review same_id
found_elsewhere source_id user_id d p [] distinct stored reviewed found = absurd (ground arith)
found_elsewhere source_id user_id d p (q ∷ drafts) distinct stored reviewed found = ground (
  arith,
  found_elsewhere source_id user_id d p drafts distinct.1,
  found_apart (awaits_review source_id user_id) q p drafts,
)

any-same_id-update_row :
    (f : CompilationDraft → CompilationDraft) (k : String) (q : CompilationDraft)
    (drafts : List CompilationDraft)
    → ((d : CompilationDraft) → (f d).id ≡ d.id)
    → any (same_id q) (update_row CompilationDraft.id k f drafts) ≡ any (same_id q) drafts
unfolding same_id update_row
any-same_id-update_row f k q [] keeps = refl
any-same_id-update_row f k q (d ∷ drafts) keeps =
    ground (arith, keeps d, any-same_id-update_row f k q drafts keeps)

IsDistinct-same_id-update_row :
    (f : CompilationDraft → CompilationDraft) (k : String) (drafts : List CompilationDraft)
    → ((d : CompilationDraft) → (f d).id ≡ d.id)
    → IsDistinct same_id drafts
    → IsDistinct same_id (update_row CompilationDraft.id k f drafts)
unfolding same_id update_row
IsDistinct-same_id-update_row f k [] keeps h = tt
IsDistinct-same_id-update_row f k (d ∷ drafts) keeps h = elim (Bool-cases (d.id == k)) [
  | inl same ↦ rw same (rw (keeps d) h.0, h.1)
  | inr other ↦ rw other (
    ground (arith, h.0, any-same_id-update_row f k d drafts keeps),
    IsDistinct-same_id-update_row f k drafts keeps h.1,
  )
]

pub IsReviewed-update_row :
    (d p : CompilationDraft) (f : CompilationDraft → CompilationDraft) (source_id user_id : String)
    (drafts : List CompilationDraft)
    → ((q : CompilationDraft) → (f q).id ≡ q.id)
    → find (awaits_review source_id user_id) drafts ≡ some p
    → IsReviewed d drafts
    → IsReviewed d (update_row CompilationDraft.id p.id f drafts)
IsReviewed-update_row d p f source_id user_id drafts keeps found h = record {
  stored = ground (
    arith,
    h.stored,
    get_row-update_row CompilationDraft.id p.id d.id f drafts keeps,
    found_elsewhere source_id user_id d p drafts h.distinct h.stored h.reviewed found,
  );
  reviewed = h.reviewed;
  distinct = IsDistinct-same_id-update_row f p.id drafts keeps h.distinct;
}

same_id_sym : (a b : CompilationDraft) → same_id a b ≡ same_id b a
unfolding same_id
same_id_sym a b = eq_sym b.id a.id

fresh_id :
    (new : CompilationDraft) (drafts : List CompilationDraft)
    → is_some (get_row CompilationDraft.id new.id drafts) ≡ false
    → any (same_id new) drafts ≡ false
unfolding same_id get_row
fresh_id new [] h = refl
fresh_id new (d ∷ drafts) h = ground (arith, fresh_id new drafts)

pub IsReviewed-append :
    (d new : CompilationDraft) (drafts : List CompilationDraft)
    → is_some (get_row CompilationDraft.id new.id drafts) ≡ false
    → IsReviewed d drafts
    → IsReviewed d (drafts ++ (new ∷ []))
IsReviewed-append d new drafts fresh h = record {
  stored = ground (arith, h.stored, get_row-append CompilationDraft.id d.id drafts new);
  reviewed = h.reviewed;
  distinct =
      IsDistinct-append same_id drafts new same_id_sym (fresh_id new drafts fresh) h.distinct;
}

-- A review of a pending draft leaves one pending draft less.
pub count-update_row :
    (f : CompilationDraft → Bool) (g : CompilationDraft → CompilationDraft) (p : CompilationDraft)
    (drafts : List CompilationDraft)
    → IsDistinct same_id drafts
    → find f drafts ≡ some p
    → f (g p) ≡ false
    → count f drafts ≡ suc (count f (update_row CompilationDraft.id p.id g drafts))
unfolding update_row
count-update_row f g p [] distinct found done = absurd (ground arith)
count-update_row f g p (d ∷ drafts) distinct found done = elim (Bool-cases (f d)) [
  | inl first ↦ ground (arith, first, eq_refl d.id)
  | inr later ↦ ground (
    arith,
    later,
    count-update_row f g p drafts distinct.1,
    found_apart f d p drafts,
    eq_sym d.id p.id,
  )
]
