-- ===== src/Parse/Bounds.antt =====
-- The size of the chunks.
use knowledge_flywheel.Base.{
  ◌⊎◌, ℕ, zero, suc, ◌+◌, ◌≤◌, ◌<◌, true, false, List, [], ◌∷◌, ◌++◌, ltb, ◌==◌, ◌≡◌, refl, arith,
  length, take, drop, length-take, All, All-append, Bool-cases, inl, inr, ok, err, min,
}
use knowledge_flywheel.Parse.Split.{
  Text, is_empty, Packing, close_current, cut_long, place, pack_paragraph, pack, split_text,
  normalize, stripped_parts, split_from,
}

-- A chunk that the index takes: not empty, and no longer than the limit.
abbrev pub IsChunk : ℕ → Text → Type 0
IsChunk n c = (0 < length c) × (length c ≤ n)

pub record IsPacked (n : ℕ) (k : Packing) : Type 0 where
  pub done : All (IsChunk n) k.chunks
  pub open_chunk : length k.current ≤ n

length-drop : (n : ℕ) (xs : Text) → length (drop n xs) + min n (length xs) ≡ length xs
length-drop zero xs = omega arith
length-drop (suc n) [] = omega arith
length-drop (suc n) (x ∷ xs) = omega (arith, length-drop n xs)

nonempty_pos : (xs : Text) → is_empty xs ≡ false → 0 < length xs
nonempty_pos [] e = cc
nonempty_pos (x ∷ xs) e = omega arith

All-snoc :
    (n : ℕ) (cs : List Text) (c : Text)
    → All (IsChunk n) cs
    → IsChunk n c
    → All (IsChunk n) (cs ++ c ∷ [])
All-snoc n cs c h k = All-append (IsChunk n) cs (c ∷ []) h (k, tt)

close_current-IsPacked :
    (n : ℕ) (k : Packing)
    → IsPacked n k
    → IsPacked n (close_current k) × (is_empty (close_current k).current ≡ true)
unfolding close_current
close_current-IsPacked n k h = elim (Bool-cases (is_empty k.current)) [
  | inl nothing ↦ rw nothing (h, nothing)
  | inr something ↦ rw something (
    record {
      done = All-snoc n k.chunks k.current h.done (nonempty_pos k.current something, h.open_chunk);
      open_chunk = omega arith;
    },
    refl,
  )
]

-- With a limit above zero, as many rounds as the paragraph has characters are enough: what is left
-- of it fits, and each chunk has the size of the limit.
cut_long-IsPacked :
    (fuel n : ℕ) (p : Text) (k : Packing)
    → 0 < n
    → length p ≤ fuel
    → IsPacked n k
    → let (rest, k') = cut_long fuel n p k in (length rest ≤ n) × IsPacked n k'
unfolding cut_long
cut_long-IsPacked zero n p k pos f h = (omega arith, h)
cut_long-IsPacked (suc fuel) n p k pos f h = elim (Bool-cases (ltb n (length p))) [
  | inl long ↦
      let (h', _) = close_current-IsPacked n k h in
      let size = length-take n p in
      let left = length-drop n p in
      let is_long : n < length p = ground arith in
      rw long (
        cut_long-IsPacked fuel n (drop n p) _ pos (omega (arith, left)) (record {
          done =
              All-snoc n (close_current k).chunks (take n p) h'.done
                (omega (arith, size), omega (arith, size));
          open_chunk = omega arith;
        }))
  | inr short ↦ rw short (ground arith, h)
]

place-IsPacked :
    (n : ℕ) (p : Text) (k : Packing) → length p ≤ n → IsPacked n k → IsPacked n (place n p k)
unfolding place
place-IsPacked n p k size h = elim (Bool-cases (is_empty p)) [
  | inl nothing ↦ rw nothing h
  | inr something ↦ elim (Bool-cases (is_empty k.current)) [
    | inl fresh ↦ rw (something, fresh) (record { done = h.done; open_chunk = size })
    | inr begun ↦ elim (Bool-cases (ltb n (length (k.current ++ (10 ∷ 10 ∷ p))))) [
      | inl over ↦
          rw (something, begun, over)
            (record {
              done =
                  All-snoc n k.chunks k.current h.done (nonempty_pos k.current begun, h.open_chunk);
              open_chunk = size;
            })
      | inr fits ↦ rw (something, begun, fits) (record { done = h.done; open_chunk = ground arith })
    ]
  ]
]

pack-IsPacked :
    (n : ℕ) (ps : List Text) (k : Packing) → 0 < n → IsPacked n k → IsPacked n (pack n ps k)
unfolding pack pack_paragraph
pack-IsPacked n [] k pos h = h
pack-IsPacked n (p ∷ ps) k pos h =
    let (size, h') = cut_long-IsPacked (length p) n p k pos (omega arith) h in
    pack-IsPacked n ps (pack_paragraph n p k) pos (place-IsPacked n _ _ size h')

-- `_split_text` raises exactly on a limit of zero; with a limit above zero it returns chunks that
-- are all non-empty and no longer than the limit, for every text.
pub split_text-IsChunk :
    (n : ℕ) (text : Text)
    → ((n ≡ 0) × (split_text n text ≡ err "parse chunk size must be greater than zero"))
      ⊎ ((0 < n) × (chunks : List Text) × (split_text n text ≡ ok chunks) × All (IsChunk n) chunks)
unfolding split_text
split_text-IsChunk zero text = inl (refl, refl)
split_text-IsChunk (suc n) text = elim (Bool-cases (is_empty (normalize text))) [
  | inl blank ↦
      inr (omega arith, [], (let pos : (suc n == 0) ≡ false = ground arith in rw (pos, blank)), tt)
  | inr words ↦
      let start : Packing = record { chunks = []; current = [] } in
      let packed : Packing =
        pack (suc n) (stripped_parts (split_from [] 0 (normalize text))) start in
      let pos : (suc n == 0) ≡ false = ground arith in
      inr (
        omega arith,
        (close_current packed).chunks,
        rw (pos, words),
        (close_current-IsPacked (suc n) packed (
            pack-IsPacked (suc n) (stripped_parts (split_from [] 0 (normalize text))) start
              (omega arith) (record { done = tt; open_chunk = omega arith }))).0.done,
      )
]
