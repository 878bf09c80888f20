-- ===== src/Parse/Content.antt =====
-- What the chunks say: the text without its white space.
use knowledge_flywheel.Base.{
  ==_iff, &&-true, ℕ, zero, suc, ◌≤◌, Bool, true, false, ◌&&◌, not, List, [], ◌∷◌, ◌++◌, ltb, leb,
  ◌==◌, ◌≡◌, refl, sym, ap, ◌∙◌, arith, length, take, drop, Bool-cases, inl, inr, keep, Result, ok,
}
use mathlib.Core.List.{reverse, append_assoc, append-nil, reverse-cons, reverse-reverse}
use knowledge_flywheel.Parse.Split.{
  Text, is_space, lstrip, strip, replace_crlf, replace_cr, normalize, newlines, split_from,
  is_empty, stripped_parts, Packing, close_current, cut_long, place, pack_paragraph, pack,
  split_text,
}

-- The characters that are not white space, in their order.
unfoldable pub visible : Text → Text
visible = keep (λ c. not (is_space c))

visible_nil : visible [] ≡ []
unfolding visible
visible_nil = refl

visible-append : (xs ys : Text) → visible (xs ++ ys) ≡ visible xs ++ visible ys
unfolding visible
visible-append [] ys = refl
visible-append (x ∷ xs) ys = ground (arith, visible-append xs ys)

visible_cons :
    (c : ℕ) (xs ys : Text) → visible xs ≡ visible ys → visible (c ∷ xs) ≡ visible (c ∷ ys)
unfolding visible
visible_cons c xs ys e = ground arith

reverse_step :
    (x : ℕ) (xs : Text) (b : Bool)
    → is_space x ≡ b
    → visible (reverse xs) ≡ reverse (visible xs)
    → visible (reverse xs) ++ visible (x ∷ []) ≡ reverse (visible (x ∷ xs))
unfolding visible
reverse_step x xs true e ih = rw (e, append-nil (visible (reverse xs))) ih
reverse_step x xs false e ih = rw (e, reverse-cons x (visible xs)) (ap (λ v. v ++ x ∷ []) ih)

visible-reverse : (xs : Text) → visible (reverse xs) ≡ reverse (visible xs)
visible-reverse [] = rw visible_nil
visible-reverse (x ∷ xs) =
    rw (reverse-cons x xs, visible-append (reverse xs) (x ∷ []))
      (reverse_step x xs (is_space x) refl (visible-reverse xs))

visible-lstrip : (xs : Text) → visible (lstrip xs) ≡ visible xs
unfolding visible lstrip
visible-lstrip [] = refl
visible-lstrip (x ∷ xs) = ground (arith, visible-lstrip xs)

visible-replace_cr : (xs : Text) → visible (replace_cr xs) ≡ visible xs
unfolding visible replace_cr is_space
visible-replace_cr [] = refl
visible-replace_cr (x ∷ xs) = ground (arith, visible-replace_cr xs)

cr_is_space : is_space 13 ≡ true
unfolding is_space
cr_is_space = refl

lf_is_space : is_space 10 ≡ true
unfolding is_space
lf_is_space = refl

visible_space : (c : ℕ) (cs : Text) → is_space c ≡ true → visible (c ∷ cs) ≡ visible cs
unfolding visible
visible_space c cs h = rw h

visible-replace_crlf : (n : ℕ) (xs : Text) → length xs ≤ n → visible (replace_crlf xs) ≡ visible xs
unfolding replace_crlf
visible-replace_crlf n [] h = refl
visible-replace_crlf n (c ∷ []) h = refl
visible-replace_crlf zero (c ∷ d ∷ xs) h = absurd (omega arith)
visible-replace_crlf (suc n) (c ∷ d ∷ xs) h = elim (Bool-cases (c == 13 && d == 10)) [
  | inl pair ↦
      let both = &&-true (c == 13) (d == 10) pair in
      let is_cr : c ≡ 13 = (==_iff c 13).0 both.0 in
      let is_lf : d ≡ 10 = (==_iff d 10).0 both.1 in
      rw
        (
          pair,
          visible_space 10 (replace_crlf xs) lf_is_space,
          visible-replace_crlf n xs (omega arith),
        )
        (rw (is_cr, is_lf, visible_space 13 (10 ∷ xs) cr_is_space, visible_space 10 xs lf_is_space))
  | inr other ↦ rw other (
      visible_cons c (replace_crlf (d ∷ xs)) (d ∷ xs)
        (visible-replace_crlf n (d ∷ xs) (omega arith)))
]

visible-newlines : (n : ℕ) → visible (newlines n) ≡ []
unfolding visible newlines is_space
visible-newlines zero = refl
visible-newlines (suc n) = visible-newlines n

visible-strip : (xs : Text) → visible (strip xs) ≡ visible xs
unfolding strip
visible-strip xs =
    rw (visible-reverse, visible-lstrip, visible-reverse, visible-lstrip)
      (reverse-reverse (visible xs))

visible-normalize : (xs : Text) → visible (normalize xs) ≡ visible xs
unfolding normalize
visible-normalize xs =
    rw (visible-strip, visible-replace_cr) (visible-replace_crlf (length xs) xs (omega arith))

-- The texts of a list, one after the other.
unfoldable pub join : List Text → Text
join [] = []
join (x ∷ xs) = x ++ join xs

join-snoc : (xs : List Text) (x : Text) → join (xs ++ x ∷ []) ≡ join xs ++ x
unfolding join
join-snoc [] x = append-nil x
join-snoc (y ∷ ys) x = rw (join-snoc ys x) (sym (append_assoc y (join ys) x))

visible-join-snoc :
    (xs : List Text) (x : Text) → visible (join (xs ++ x ∷ [])) ≡ visible (join xs) ++ visible x
visible-join-snoc xs x = rw join-snoc (visible-append (join xs) x)

-- Splitting into paragraphs drops newlines only.
visible-split_from :
    (part : Text) (run : ℕ) (cs : Text)
    → visible (join (split_from part run cs)) ≡ visible part ++ visible cs
unfolding split_from join
visible-split_from part run [] = elim (Bool-cases (leb 2 run)) [
  | inl blank ↦
      rw (blank, visible_nil)
        (visible-append part ([] ++ []) ∙ ap (λ v. visible part ++ v) visible_nil)
  | inr short ↦ rw (
    short,
    append-nil (part ++ newlines run),
    visible-append part (newlines run),
    visible-newlines run,
    visible_nil,
  )
]
visible-split_from part run (c ∷ cs) = elim (Bool-cases (c == 10)) [
  | inl newline ↦
      let is_lf : c ≡ 10 = (==_iff c 10).0 newline in
      rw (newline, visible-split_from part (suc run) cs)
        (rw (is_lf, visible_space 10 cs lf_is_space))
  | inr letter ↦ elim (Bool-cases (leb 2 run)) [
    | inl blank ↦
        rw (letter, blank, visible-append part, visible-split_from (c ∷ []) 0 cs)
          (ap (λ v. visible part ++ v) (sym (visible-append (c ∷ []) cs)))
    | inr short ↦
        rw (letter, short, visible-split_from (part ++ (newlines run ++ c ∷ [])) 0 cs)
          (rw
            (
              visible-append part (newlines run ++ c ∷ []),
              visible-append (newlines run) (c ∷ []),
              visible-newlines run,
              append_assoc,
            )
            (ap (λ v. visible part ++ v) (sym (visible-append (c ∷ []) cs))))
  ]
]

empty_nil : (xs : Text) → is_empty xs ≡ true → xs ≡ []
empty_nil [] e = refl
empty_nil (x ∷ xs) e = cc

visible_of_blank : (p : Text) → is_empty (strip p) ≡ true → visible p ≡ []
visible_of_blank p e = sym (visible-strip p) ∙ ap visible (empty_nil (strip p) e) ∙ visible_nil

visible-stripped_parts : (ps : List Text) → visible (join (stripped_parts ps)) ≡ visible (join ps)
unfolding stripped_parts join
visible-stripped_parts [] = refl
visible-stripped_parts (p ∷ ps) = elim (Bool-cases (is_empty (strip p))) [
  | inl blank ↦
      rw (blank, visible-append p (join ps), visible-stripped_parts ps, visible_of_blank p blank)
  | inr words ↦
      rw (
        words,
        visible-append (strip p),
        visible-append p,
        visible-strip,
        visible-stripped_parts ps,
      )
]

-- What a packing says so far.
said : Packing → Text
said k = visible (join k.chunks) ++ visible k.current

said-close_current : (k : Packing) → said (close_current k) ≡ said k
unfolding said close_current
said-close_current k = elim (Bool-cases (is_empty k.current)) [
  | inl nothing ↦ rw nothing
  | inr something ↦ rw (something, visible-join-snoc k.chunks k.current, visible_nil) (append-nil _)
]

closed_says : (k : Packing) → visible (join (close_current k).chunks) ≡ said k
unfolding close_current said
closed_says k = elim (Bool-cases (is_empty k.current)) [
  | inl nothing ↦
      rw (nothing, empty_nil k.current nothing, visible_nil)
        (sym (append-nil (visible (join k.chunks))))
  | inr something ↦ rw something (visible-join-snoc k.chunks k.current)
]

take-append-drop : (n : ℕ) (p : Text) → take n p ++ drop n p ≡ p
take-append-drop zero p = refl
take-append-drop (suc n) [] = refl
take-append-drop (suc n) (c ∷ p) = ap (◌∷◌ c) (take-append-drop n p)

said_taken :
    (n : ℕ) (p : Text) (cs : List Text)
    → said (record { chunks = cs ++ take n p ∷ []; current = [] }) ++ visible (drop n p)
      ≡ visible (join cs) ++ visible p
unfolding said
said_taken n p cs =
    rw
      (
        visible-join-snoc cs (take n p),
        visible_nil,
        append-nil (visible (join cs) ++ visible (take n p)),
        append_assoc,
      )
      (ap (λ v. visible (join cs) ++ v)
        (sym (visible-append (take n p) (drop n p)) ∙ ap visible (take-append-drop n p)))

said-cut_long :
    (fuel n : ℕ) (p : Text) (k : Packing)
    → let (rest, k') = cut_long fuel n p k in said k' ++ visible rest ≡ said k ++ visible p
unfolding cut_long
said-cut_long zero n p k = refl
said-cut_long (suc fuel) n p k = elim (Bool-cases (ltb n (length p))) [
  | inl long ↦ rw long (
      said-cut_long fuel n (drop n p)
        (record { chunks = (close_current k).chunks ++ take n p ∷ []; current = [] })
      ∙ said_taken n p (close_current k).chunks
      ∙ ap (λ v. v ++ visible p) (closed_says k))
  | inr short ↦ rw short
]

said-place : (n : ℕ) (p : Text) (k : Packing) → said (place n p k) ≡ said k ++ visible p
unfolding place said
said-place n p k = elim (Bool-cases (is_empty p)) [
  | inl nothing ↦ rw (nothing, empty_nil p nothing, visible_nil) (sym (append-nil _))
  | inr something ↦ elim (Bool-cases (is_empty k.current)) [
    | inl fresh ↦ rw (
      something,
      fresh,
      empty_nil k.current fresh,
      visible_nil,
      append-nil (visible (join k.chunks)),
    )
    | inr begun ↦ elim (Bool-cases (ltb n (length (k.current ++ (10 ∷ 10 ∷ p))))) [
      | inl over ↦ rw (something, begun, over, visible-join-snoc k.chunks k.current)
      | inr fits ↦
          rw
            (
              something,
              begun,
              fits,
              visible-append k.current (10 ∷ 10 ∷ p),
              visible_space 10 (10 ∷ p) lf_is_space,
              visible_space 10 p lf_is_space,
            )
            (sym (append_assoc (visible (join k.chunks)) (visible k.current) (visible p)))
    ]
  ]
]

said-pack :
    (n : ℕ) (ps : List Text) (k : Packing) → said (pack n ps k) ≡ said k ++ visible (join ps)
unfolding pack pack_paragraph join
said-pack n [] k = rw visible_nil (sym (append-nil (said k)))
said-pack n (p ∷ ps) k =
    said-pack n ps (pack_paragraph n p k)
    ∙ ap (λ v. v ++ visible (join ps))
        (said-place n _ (cut_long (length p) n p k).1 ∙ said-cut_long (length p) n p k)
    ∙ append_assoc (said k) (visible p) (visible (join ps))
    ∙ ap (λ v. said k ++ v) (sym (visible-append p (join ps)))

said_start : said (record { chunks = []; current = [] }) ≡ []
unfolding said join
said_start = rw visible_nil

ok_injective : (a b : List Text) → ◌≡◌ {A = Result (List Text)} (ok a) (ok b) → a ≡ b
ok_injective a b e = cc

-- `_split_text` loses, adds and reorders no visible character: with a limit above zero, the
-- characters of the chunks one after the other that are not white space are those of the text.
pub split_text_content :
    (n : ℕ) (text : Text) (chunks : List Text)
    → split_text n text ≡ ok chunks
    → visible (join chunks) ≡ visible text
unfolding split_text join
split_text_content n text chunks e = elim (Bool-cases (n == 0)) [
  | inl none_allowed ↦ cc (rw none_allowed at e)
  | inr some_allowed ↦ elim (Bool-cases (is_empty (normalize text))) [
    | inl blank ↦
        let empty : [] ≡ chunks = ok_injective _ _ (rw (some_allowed, blank) at e) in
        rw (← empty, join)
          (sym (ap visible (empty_nil (normalize text) blank)) ∙ visible-normalize text)
    | inr words ↦
        let parts = stripped_parts (split_from [] 0 (normalize text)) in
        let start : Packing = record { chunks = []; current = [] } in
        let packed : (close_current (pack n parts start)).chunks ≡ chunks =
          ok_injective _ _ (rw (some_allowed, words) at e) in
        rw (← packed) (
          closed_says (pack n parts start)
          ∙ said-pack n parts start
          ∙ ap (λ v. v ++ visible (join parts)) said_start
          ∙ visible-stripped_parts (split_from [] 0 (normalize text))
          ∙ visible-split_from [] 0 (normalize text)
          ∙ ap (λ v. v ++ visible (normalize text)) visible_nil
          ∙ visible-normalize text)
  ]
]
