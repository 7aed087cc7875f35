-- ===== src/Chunking/Examples.antt =====
-- ingest/utils.py `_split_by_token_window` on characters that are numbers: 32 is the blank.
use wikimind.Prelude.{
  ℕ, ◌≡◌, refl, true, Option, none, some, List, [], ◌∷◌, eqb, ◌||◌, length, Bool, append-nil, arith,
}
use wikimind.Chunking.{DocumentChunk}
use wikimind.Chunking.Windows.{ink}
use wikimind.Chunking.Headings.{Section, heading, body, collect, chunk_text}
use wikimind.Chunking.Headings.Bound.{expected, chunk_text_lem}
use wikimind.Chunking.Paragraphs.{split_by_paragraphs}
use wikimind.Chunking.Paragraphs.Packing.{Packs, ink_all}

abbrev is_blank : ℕ → Bool
is_blank c = eqb c 32

abbrev text : List ℕ
text = 97 ∷ 98 ∷ 32 ∷ 99 ∷ 100 ∷ 101 ∷ 102 ∷ 103 ∷ 104 ∷ []

-- A paragraph of white space between two that are too long for a chunk.
abbrev paragraphs : List (List ℕ)
paragraphs =
    (97 ∷ 97 ∷ 97 ∷ 97 ∷ 97 ∷ 97 ∷ 97 ∷ 97 ∷ [])
    ∷ (32 ∷ [])
    ∷ (98 ∷ 98 ∷ 98 ∷ 98 ∷ 98 ∷ 98 ∷ 98 ∷ 98 ∷ [])
    ∷ []

abbrev is_space : ℕ → Bool
is_space c = eqb c 32 || eqb c 10

blank_is_space : (c : ℕ) → is_blank c ≡ true → is_space c ≡ true
blank_is_space c h = ground (arith, h)

lengths : Option (List (DocumentChunk ℕ)) → List ℕ
lengths none = []
lengths (some []) = []
lengths (some (c ∷ cs)) = length c.content ∷ lengths (some cs)

-- The third chunk is empty.
empty_chunk_run :
    lengths (split_by_paragraphs is_blank is_space 10 1 0 paragraphs) ≡ 4 ∷ 4 ∷ 0 ∷ 4 ∷ 4 ∷ []
unfolding lengths split_by_paragraphs
empty_chunk_run = refl

-- A heading and the text under it. The paragraphs are taken as one.
abbrev sections : List (Section ℕ)
sections = heading 1 (84 ∷ []) ∷ body (10 ∷ 97 ∷ 97 ∷ 97 ∷ 97 ∷ 97 ∷ 97 ∷ 97 ∷ 97 ∷ []) ∷ []

abbrev one_paragraph : List ℕ → List (List ℕ)
one_paragraph t = t ∷ []

one_paragraph_keeps :
    (t : List ℕ)
    → ink_all is_blank is_space 10 blank_is_space refl (one_paragraph t) ≡ ink is_blank is_space t
one_paragraph_keeps t = append-nil (ink is_blank is_space t)

chunk_text_lem_example :
    Packs is_blank is_space 10 blank_is_space refl 1 0
      (expected is_blank is_space 10 blank_is_space refl one_paragraph one_paragraph_keeps text
        sections
        (collect is_blank is_space 10 1 sections [] []))
      (chunk_text is_blank is_space 10 one_paragraph 1 text sections)
chunk_text_lem_example =
    chunk_text_lem is_blank is_space 10 blank_is_space refl one_paragraph one_paragraph_keeps 1 text
      sections (omega arith)
