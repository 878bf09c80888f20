-- ===== src/Tests/Chunks.antt =====
-- The theorems on `_split_text` at a small text.
use knowledge_flywheel.Base.{◌⊎◌, ℕ, ◌<◌, List, [], ◌∷◌, ◌≡◌, refl, ok, err, All}
use knowledge_flywheel.Parse.Split.{is_space, Text, split_text}
use knowledge_flywheel.Parse.Bounds.{IsChunk, split_text-IsChunk}
use knowledge_flywheel.Parse.Content.{visible, join, split_text_content}

-- Two paragraphs, "abcde" and "f", between blank lines.
abbrev two_paragraphs : Text
two_paragraphs = 32 ∷ 97 ∷ 98 ∷ 99 ∷ 100 ∷ 101 ∷ 13 ∷ 10 ∷ 13 ∷ 10 ∷ 102 ∷ 10 ∷ []

abbrev three_chunks : List Text
three_chunks = (97 ∷ 98 ∷ 99 ∷ []) ∷ (100 ∷ 101 ∷ []) ∷ (102 ∷ []) ∷ []

split_three : split_text 3 two_paragraphs ≡ ok three_chunks
unfolding split_text is_space
split_three = refl

abbrev limit : ℕ
limit = 3

split_text-IsChunk_example :
    ((limit ≡ 0)
      × (split_text limit two_paragraphs ≡ err "parse chunk size must be greater than zero"))
    ⊎ ((0 < limit)
        × (chunks : List Text) × (split_text limit two_paragraphs ≡ ok chunks)
        × All (IsChunk limit) chunks)
split_text-IsChunk_example = split_text-IsChunk limit two_paragraphs

split_text_content_example : visible (join three_chunks) ≡ visible two_paragraphs
split_text_content_example = split_text_content 3 two_paragraphs three_chunks split_three
