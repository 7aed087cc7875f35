-- ===== src/Conversations/Headings.antt =====
-- engine/conversation_serializer.py `_downshift_answer_headings`: the headings of an answer go two
-- levels down, below the page's title and the headings of the turns.
use Prim.Native.Char.{Char}
use Prim.Native.String.append
use Prim.Native.String.{[], ◌∷◌}
use wikimind.Prelude.{
  ℕ, suc, String, ◌==◌, ◌+++◌, ◌≡◌, refl, ap, ◌∙◌, Bool, true, false, ◌&&◌, ◌||◌, ◌≤◌, leb, eq→path,
  if◌then◌else◌, arith, Bool-cases, inl, inr,
}

pub is : String → Char → Bool
is mark c = (c ∷ []) == mark

-- `^(#{1,4}) ` at this place, behind so many marks.
pub is_heading : ℕ → String → Bool
unfolding is
is_heading seen [] = false
is_heading seen (c ∷ s) =
    let further = is_heading (suc seen) s in
    if is "#" c then leb (suc seen) 4 && further else is " " c && leb 1 seen

-- `_downshift_answer_headings`; the flag says that a line begins here.
pub downshift_from : Bool → String → String
unfolding is_heading is
downshift_from at_start [] = []
downshift_from at_start (c ∷ s) =
    let rest = c ∷ downshift_from (is "\n" c) s in
    if at_start && is_heading 0 (c ∷ s) then "##" +++ rest else rest

unfoldable pub downshift_answer_headings : String → String
unfolding downshift_from
downshift_answer_headings = downshift_from true

-- A heading of the first or the second level at this place, behind so many marks.
is_top : ℕ → String → Bool
unfolding is
is_top seen [] = false
is_top seen (c ∷ s) =
    let further = is_top (suc seen) s in
    if is "#" c then leb (suc seen) 2 && further else is " " c && leb 1 seen

-- Some line is such a heading; the flag says that a line begins here.
pub has_top : Bool → String → Bool
unfolding is_top is
has_top at_start [] = false
has_top at_start (c ∷ s) = (at_start && is_top 0 (c ∷ s)) || has_top (is "\n" c) s

mark_line : (c : Char) → is "#" c ≡ true → is "\n" c ≡ false
unfolding is
mark_line c h = rw (eq→path (c ∷ []) "#" h) refl

-- A line that is no heading of four levels or less is none after what follows it was changed.
is_top-downshift_from :
    (seen : ℕ) (s : String)
    → is_heading seen s ≡ false
    → seen ≤ 2
    → is_top seen (downshift_from false s) ≡ false
unfolding is_top is_heading downshift_from
is_top-downshift_from seen [] h few = refl
is_top-downshift_from seen (c ∷ s) h few = elim (Bool-cases (is "#" c)) [
  | inl mark ↦ elim (Bool-cases (leb (suc seen) 2)) [
    | inl within ↦
        rw (mark, within, mark_line c mark)
          (is_top-downshift_from (suc seen) s (ground arith) (ground arith))
    | inr beyond ↦ rw (mark, beyond) refl
  ]
  | inr other ↦ rw (other) (rw (other) at h)
]

starts_marked : (c : Char) (s : String) → is_heading 0 (c ∷ s) ≡ true → is "#" c ≡ true
unfolding is_heading
starts_marked c s h = ground arith

abbrev mark : Char
mark = "#"

marks_before : (s : String) → "##" +++ s ≡ mark ∷ mark ∷ s
marks_before s =
    append.cons mark "#" s
    ∙ ap (λ t. mark ∷ t) (append.cons mark [] s ∙ ap (λ t. mark ∷ t) (append.nil s))

has_top-marked :
    (c : Char) (rest : String)
    → is "#" c ≡ true
    → has_top (is "\n" c) rest ≡ false
    → has_top true ("##" +++ (c ∷ rest)) ≡ false
unfolding has_top is_top is
has_top-marked c rest marked h = rw (marks_before (c ∷ rest)) (rw marked h)

has_top-downshift_from :
    (at_start : Bool) (s : String) → has_top at_start (downshift_from at_start s) ≡ false
unfolding has_top downshift_from
has_top-downshift_from at_start [] = refl
has_top-downshift_from false (c ∷ s) = has_top-downshift_from (is "\n" c) s
has_top-downshift_from true (c ∷ s) = elim (Bool-cases (is_heading 0 (c ∷ s))) [
  | inl heading ↦
      rw heading
        (has_top-marked c _ (starts_marked c s heading) (has_top-downshift_from (is "\n" c) s))
  | inr plain ↦
      rw (plain, is_top-downshift_from 0 (c ∷ s) plain (omega arith))
        (has_top-downshift_from (is "\n" c) s)
]

-- In a serialized answer no line is a heading of the first or the second level (one or two marks and
-- a space), whatever headings the answer had.
pub has_top-downshift_answer_headings :
    (answer : String) → has_top true (downshift_answer_headings answer) ≡ false
unfolding downshift_answer_headings
has_top-downshift_answer_headings = has_top-downshift_from true
