-- ===== src/Store/Keyed.antt =====
-- A table with a unique text column: what a query for one value of it finds after a change.
use knowledge_flywheel.Base.{
  Bool, true, false, none, some, List, [], ◌∷◌, ◌++◌, ◌≡◌, ◌≢◌, refl, ap, sym, ◌∙◌, arith, All,
  All-mono, All-at, Member, AllDistinct, map, keep, Bool-cases, inl, inr, ==_iff, ◌==◌,
  if◌then◌else◌,
}
use mathlib.Core.Option.{some-injective}
use knowledge_flywheel.Store.Table.{
  Table, Entity, IsClean, first, head?, add, put, remove, flush, live_rows,
}
use knowledge_flywheel.Store.Laws.{
  select_clean, flush-IsClean, live_rows-flush, live_rows-add, live_rows-put, replace_row,
}

module _ {A : Type 0} where
  distinct_rest :
      {B : Type 0} (f : A → B) (x : A) (xs : List A)
      → All (λ y. y ≢ f x) (map f xs)
      → All (λ y. f y ≢ f x) xs
  distinct_rest f x [] h = tt
  distinct_rest f x (y ∷ ys) h = (h.0, distinct_rest f x ys h.1)

  -- In a list on which `f` is injective, an element is found by its value.
  pub distinct_at :
      {B : Type 0} (f : A → B) (a : A) (xs : List A)
      → AllDistinct (map f xs)
      → Member a xs
      → All (λ x. f x ≡ f a → x ≡ a) xs
  distinct_at f a [] d m = tt
  distinct_at f a (x ∷ xs) d (inl e) = (
    λ _. sym e,
    All-mono _ _ xs (λ y other same. absurd (other (same ∙ ap f e))) (distinct_rest f x xs d.0),
  )
  distinct_at f a (x ∷ xs) d (inr m) = (
    λ same. absurd (All-at (λ y. f y ≢ f x) a xs (distinct_rest f x xs d.0) m (sym same)),
    distinct_at f a xs d.1 m,
  )

  pub head?-Member : (p : A → Bool) (xs : List A) (a : A) → head? (keep p xs) ≡ some a → Member a xs
  head?-Member p [] a e = cc
  head?-Member p (x ∷ xs) a e = elim (Bool-cases (p x)) [
    | inl hit ↦ inl (sym (some-injective x a (rw hit at e)))
    | inr miss ↦ inr (head?-Member p xs a (rw miss at e))
  ]

  keep_snoc_other :
      (p : A → Bool) (xs : List A) (a : A) → p a ≡ false → keep p (xs ++ a ∷ []) ≡ keep p xs
  keep_snoc_other p [] a h = rw h refl
  keep_snoc_other p (x ∷ xs) a h = ground (arith, keep_snoc_other p xs a h)

  first_flush : (p : A → Bool) (rs : Table A) → first p (flush rs) ≡ head? (keep p (live_rows rs))
  first_flush p rs =
      ap head? (select_clean p (flush rs) (flush-IsClean rs) ∙ ap (keep p) (live_rows-flush rs))

  -- A row that a query does not look for may be added without changing what it finds.
  pub first-flush-add_other :
      (p : A → Bool) (rs : Table A) (a : A)
      → IsClean rs
      → p a ≡ false
      → first p (flush (add a rs)) ≡ first p rs
  first-flush-add_other p rs a c h =
      first_flush p (add a rs)
      ∙ ap (λ xs. head? (keep p xs)) (live_rows-add a rs)
      ∙ ap head? (keep_snoc_other p (live_rows rs) a h ∙ sym (select_clean p rs c))

module _ {A : Type 0} ⦃e : Entity A⦄ where
  keep-replace_other :
      (p : A → Bool) (a : A) (xs : List A)
      → p a ≡ false
      → All (λ x. e.id x ≡ e.id a → p x ≡ false) xs
      → keep p (replace_row a xs) ≡ keep p xs
  keep-replace_other p a [] h others = refl
  keep-replace_other p a (x ∷ xs) h others = elim (Bool-cases (e.id x == e.id a)) [
    | inl same ↦
        rw (same, h, others.0 ((==_iff (e.id x) (e.id a)).0 same))
          (keep-replace_other p a xs h others.1)
    | inr other ↦
        rw other (ap (λ r. if p x then x ∷ r else r) (keep-replace_other p a xs h others.1))
  ]

  pub first-flush-put_other :
      (p : A → Bool) (rs : Table A) (a : A)
      → IsClean rs
      → p a ≡ false
      → All (λ x. e.id x ≡ e.id a → p x ≡ false) (live_rows rs)
      → first p (flush (put a rs)) ≡ first p rs
  first-flush-put_other p rs a c h others =
      first_flush p (put a rs)
      ∙ ap (λ xs. head? (keep p xs)) (live_rows-put a rs)
      ∙ ap head? (keep-replace_other p a (live_rows rs) h others ∙ sym (select_clean p rs c))

  -- The objects without those that have the key of `a`.
  abbrev pub without : A → List A → List A
  without a xs = keep (λ x. if e.id x == e.id a then false else true) xs

  pub live_rows-remove : (a : A) (rs : Table A) → live_rows (remove a rs) ≡ without a (live_rows rs)
  unfolding remove live_rows
  live_rows-remove a [] = refl
  live_rows-remove a (r ∷ rs) = ground (arith, live_rows-remove a rs)

  keep-without_other :
      (p : A → Bool) (a : A) (xs : List A)
      → All (λ x. e.id x ≡ e.id a → p x ≡ false) xs
      → keep p (without a xs) ≡ keep p xs
  keep-without_other p a [] others = refl
  keep-without_other p a (x ∷ xs) others = elim (Bool-cases (e.id x == e.id a)) [
    | inl same ↦
        rw (same, others.0 ((==_iff (e.id x) (e.id a)).0 same)) (keep-without_other p a xs others.1)
    | inr other ↦ rw other (ap (λ r. if p x then x ∷ r else r) (keep-without_other p a xs others.1))
  ]

  pub first-flush-remove_other :
      (p : A → Bool) (rs : Table A) (a : A)
      → IsClean rs
      → All (λ x. e.id x ≡ e.id a → p x ≡ false) (live_rows rs)
      → first p (flush (remove a rs)) ≡ first p rs
  first-flush-remove_other p rs a c others =
      first_flush p (remove a rs)
      ∙ ap (λ xs. head? (keep p xs)) (live_rows-remove a rs)
      ∙ ap head? (keep-without_other p a (live_rows rs) others ∙ sym (select_clean p rs c))

  keep-without_self :
      (p : A → Bool) (a : A) (xs : List A)
      → All (λ x. p x ≡ true → x ≡ a) xs
      → keep p (without a xs) ≡ []
  keep-without_self p a [] own = refl
  keep-without_self p a (x ∷ xs) own = elim (Bool-cases (e.id x == e.id a)) [
    | inl same ↦ rw same (keep-without_self p a xs own.1)
    | inr other ↦ elim (Bool-cases (p x)) [
      | inl hit ↦ absurd (not_other x (own.0 hit) other)
      | inr miss ↦ rw (other, miss) (keep-without_self p a xs own.1)
    ]
  ]
    where
      not_other : (x : A) → x ≡ a → (e.id x == e.id a) ≡ false → ⊥
      not_other x same other = ground (arith, ap e.id same)

  -- Where `a` is the only row that a query looks for, the query finds nothing once it is deleted.
  pub first-flush-remove_self :
      (p : A → Bool) (rs : Table A) (a : A)
      → All (λ x. p x ≡ true → x ≡ a) (live_rows rs)
      → first p (flush (remove a rs)) ≡ none
  first-flush-remove_self p rs a own =
      first_flush p (remove a rs)
      ∙ ap (λ xs. head? (keep p xs)) (live_rows-remove a rs)
      ∙ ap head? (keep-without_self p a (live_rows rs) own)
