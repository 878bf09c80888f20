-- ===== src/Parse/Split.antt =====
-- `_split_text`. A text is the list of its code points; `[]` is the empty string, which is false.
use knowledge_flywheel.Base.{
  ℕ, zero, suc, Bool, true, false, ◌&&◌, ◌||◌, not, List, [], ◌∷◌, ◌++◌, ltb, leb, ◌==◌,
  if◌then◌else◌, length, take, drop, Result, ok, err,
}
use mathlib.Core.List.{reverse}

abbrev pub Text : Type 0
Text = List ℕ

-- `str.isspace` of a character: what `strip()` removes.
unfoldable pub is_space : ℕ → Bool
is_space c =
    (leb 9 c && leb c 13)
    || ((leb 28 c && leb c 32)
        || (c == 133
            || (c == 160
                || (c == 5760
                    || ((leb 8192 c && leb c 8202)
                        || (c == 8232
                            || (c == 8233 || (c == 8239 || (c == 8287 || c == 12288)))))))))

unfoldable pub lstrip : Text → Text
lstrip [] = []
lstrip (c ∷ cs) = let rest = lstrip cs in if is_space c then rest else c ∷ cs

-- `text.strip()`
unfoldable pub strip : Text → Text
unfolding lstrip
strip cs = reverse (lstrip (reverse (lstrip cs)))

-- `.replace("\r\n", "\n")`
unfoldable pub replace_crlf : Text → Text
replace_crlf [] = []
replace_crlf (c ∷ []) = c ∷ []
replace_crlf (c ∷ d ∷ cs) =
    let rest = replace_crlf cs in
    let rest' = replace_crlf (d ∷ cs) in if c == 13 && d == 10 then 10 ∷ rest else c ∷ rest'

-- `.replace("\r", "\n")`
unfoldable pub replace_cr : Text → Text
replace_cr [] = []
replace_cr (c ∷ cs) = (if c == 13 then 10 else c) ∷ replace_cr cs

unfoldable pub normalize : Text → Text
unfolding replace_crlf replace_cr strip
normalize text = strip (replace_cr (replace_crlf text))

unfoldable pub newlines : ℕ → Text
newlines zero = []
newlines (suc n) = 10 ∷ newlines n

-- `re.split(r"\n{2,}", text)`: `run` newlines have been read since `part`.
unfoldable pub split_from : Text → ℕ → Text → List Text
unfolding newlines
split_from part run [] = if leb 2 run then part ∷ [] ∷ [] else (part ++ newlines run) ∷ []
split_from part run (c ∷ cs) =
    let rest =
      split_from
        (if c == 10 then part else if leb 2 run then c ∷ [] else part ++ (newlines run ++ c ∷ []))
        (if c == 10 then suc run else 0) cs in
    if not (c == 10) && leb 2 run then part ∷ rest else rest

abbrev pub is_empty : Text → Bool
is_empty [] = true
is_empty (_ ∷ _) = false

-- `[part.strip() for part in parts if part.strip()]`
unfoldable pub stripped_parts : List Text → List Text
stripped_parts [] = []
stripped_parts (p ∷ ps) =
    let rest = stripped_parts ps in if is_empty (strip p) then rest else strip p ∷ rest

-- The chunks that are done, and the one that is open.
pub record Packing : Type 0 where
  pub chunks : List Text
  pub current : Text

-- `if current: chunks.append(current); current = ""`
unfoldable pub close_current : Packing → Packing
close_current k =
    if is_empty k.current then k else record { chunks = k.chunks ++ k.current ∷ []; current = [] }

-- `while len(paragraph) > max_chars`, on fuel.
unfoldable pub cut_long : ℕ → ℕ → Text → Packing → Text × Packing
unfolding close_current
cut_long zero max_chars paragraph k = (paragraph, k)
cut_long (suc fuel) max_chars paragraph k =
    let closed = close_current k in
    let rest =
      cut_long fuel max_chars (drop max_chars paragraph)
        (record { chunks = closed.chunks ++ take max_chars paragraph ∷ []; current = [] }) in
    if ltb max_chars (length paragraph) then rest else (paragraph, k)

-- `f"{current}\n\n{paragraph}" if current else paragraph`
abbrev pub candidate_of : Text → Text → Text
candidate_of current paragraph =
    if is_empty current then paragraph else current ++ (10 ∷ 10 ∷ paragraph)

-- The rest of the body of the loop over the paragraphs.
unfoldable pub place : ℕ → Text → Packing → Packing
place max_chars paragraph k =
    if is_empty paragraph
    then k
    else if not (is_empty k.current) && ltb max_chars (length (candidate_of k.current paragraph))
    then record { chunks = k.chunks ++ k.current ∷ []; current = paragraph }
    else record k { current = candidate_of k.current paragraph }

unfoldable pub pack_paragraph : ℕ → Text → Packing → Packing
unfolding cut_long place
pack_paragraph max_chars paragraph k =
    let (rest, k') = cut_long (length paragraph) max_chars paragraph k in place max_chars rest k'

unfoldable pub pack : ℕ → List Text → Packing → Packing
unfolding pack_paragraph
pack max_chars [] k = k
pack max_chars (p ∷ ps) k = pack max_chars ps (pack_paragraph max_chars p k)

-- `_split_text`
unfoldable pub split_text : ℕ → Text → Result (List Text)
unfolding normalize split_from stripped_parts pack close_current
split_text max_chars text =
    if max_chars == 0
    then err "parse chunk size must be greater than zero"
    else if is_empty (normalize text)
    then ok []
    else ok
        (close_current (
          pack max_chars (stripped_parts (split_from [] 0 (normalize text)))
            (record { chunks = []; current = [] }))).chunks
