-- ===== src/Store/Laws.antt =====
-- What queries find after writes.
use knowledge_flywheel.Base.{
  Bool-cases, ap, ◌==◌, Bool, true, false, List, [], ◌∷◌, ◌++◌, ◌≡◌, refl, arith, keep, All, ◌<◌,
  if◌then◌else◌, All-mono, Option-cases, not, subst, some, none, inl, inr,
}
use mathlib.Core.Option.{some-injective}
use knowledge_flywheel.Store.Table.{
  loaded, Row, Table, Entity, IsClean, select, first, head?, for_each, add, flush, live_rows, put,
  next_id, matches, delete_where,
}

module _ {A : Type 0} where
  pub flush-IsClean : (rs : Table A) → IsClean (flush rs)
  unfolding flush
  flush-IsClean [] = tt
  flush-IsClean (r ∷ rs) = (refl, flush-IsClean rs)

  pub live_rows-flush : (rs : Table A) → live_rows (flush rs) ≡ live_rows rs
  unfolding flush live_rows
  live_rows-flush [] = refl
  live_rows-flush (r ∷ rs) = ground (arith, live_rows-flush rs)

  pub live_rows-add : (a : A) (rs : Table A) → live_rows (add a rs) ≡ live_rows rs ++ a ∷ []
  unfolding add live_rows
  live_rows-add a [] = refl
  live_rows-add a (r ∷ rs) = ground (arith, live_rows-add a rs)

  -- Where nothing is left to flush, a query sees the objects.
  pub select_clean :
      (p : A → Bool) (rs : Table A) → IsClean rs → select p rs ≡ keep p (live_rows rs)
  unfolding select live_rows
  select_clean p [] c = refl
  select_clean p (r ∷ rs) c = ground (arith, select_clean p rs c.1)

  pub keep-All : (p : A → Bool) (xs : List A) → All (λ x. p x ≡ true) (keep p xs)
  keep-All p [] = tt
  keep-All p (x ∷ xs) = ground (arith, keep-All p xs)

  pub All-keep : (P : A → Type 0) (p : A → Bool) (xs : List A) → All P xs → All P (keep p xs)
  All-keep P p [] h = tt
  All-keep P p (x ∷ xs) h = ground (arith, All-keep P p xs h.1)

  -- What a query returns has the properties that all objects have.
  pub select-All :
      (P : A → Type 0) (p : A → Bool) (rs : Table A) → All P (live_rows rs) → All P (select p rs)
  unfolding select live_rows
  select-All P p [] h = tt
  select-All P p (r ∷ rs) h = ground (arith, select-All P p rs h.1)

  select_step :
      (p q : A → Bool) (f : A → A) (r : Row A) (rest rest' : List A)
      → ((a : A) → q a ≡ true → p a ≡ false)
      → rest ≡ rest'
      → (if matches p (if matches q r then record r { live = f r.live } else r)
          then (if matches q r then record r { live = f r.live } else r).live ∷ rest
          else rest)
        ≡ (if matches p r then r.live ∷ rest' else rest')
  select_step p q f r rest rest' d e = elim (Option-cases r.stored) [
    | inl new ↦ rw new e
    | inr (a, old) ↦ ground (arith, d a)
  ]

  -- Changing other rows does not change what a query returns, before the flush.
  pub select-for_each_disjoint :
      (p q : A → Bool) (f : A → A) (rs : Table A)
      → ((a : A) → q a ≡ true → p a ≡ false)
      → select p (for_each q f rs) ≡ select p rs
  unfolding select for_each
  select-for_each_disjoint p q f [] d = refl
  select-for_each_disjoint p q f (r ∷ rs) d =
      select_step p q f r _ _ d (select-for_each_disjoint p q f rs d)

  -- The loop over the rows of a query, on the objects.
  abbrev pub update_where : (A → Bool) → (A → A) → List A → List A
  update_where p f [] = []
  update_where p f (x ∷ xs) = (if p x then f x else x) ∷ update_where p f xs

  pub live_rows-for_each :
      (p : A → Bool) (f : A → A) (rs : Table A)
      → IsClean rs
      → live_rows (for_each p f rs) ≡ update_where p f (live_rows rs)
  unfolding live_rows for_each
  live_rows-for_each p f [] c = refl
  live_rows-for_each p f (r ∷ rs) c = ground (arith, live_rows-for_each p f rs c.1)

  pub All-update_where :
      (P Q : A → Type 0) (p : A → Bool) (f : A → A) (xs : List A)
      → ((a : A) → p a ≡ true → P a → Q (f a))
      → ((a : A) → p a ≡ false → P a → Q a)
      → All P xs
      → All Q (update_where p f xs)
  All-update_where P Q p f [] hit miss h = tt
  All-update_where P Q p f (x ∷ xs) hit miss h =
      ground (arith, hit x, miss x, All-update_where P Q p f xs hit miss h.1)

module _ {A : Type 0} where
  head?-All : (P : A → Type 0) (xs : List A) (a : A) → All P xs → head? xs ≡ some a → P a
  head?-All P [] a h e = cc
  head?-All P (x ∷ xs) a h e = subst P (some-injective x a e) h.0

  -- What a query finds first passes its test, and has what all rows have.
  pub first_test :
      (p : A → Bool) (rs : Table A) (a : A) → IsClean rs → first p rs ≡ some a → p a ≡ true
  first_test p rs a c e =
      head?-All (λ x. p x ≡ true) _ a (rw (select_clean p rs c) (keep-All p (live_rows rs))) e

  pub first-All :
      (P : A → Type 0) (p : A → Bool) (rs : Table A) (a : A)
      → All P (live_rows rs)
      → first p rs ≡ some a
      → P a
  first-All P p rs a h e = head?-All P _ a (select-All P p rs h) e

module _ {A : Type 0} where
  keep_snoc :
      (p : A → Bool) (xs : List A) (a : A)
      → p a ≡ true
      → head? (keep p xs) ≡ none
      → head? (keep p (xs ++ a ∷ [])) ≡ some a
  keep_snoc p [] a h e = rw h
  keep_snoc p (x ∷ xs) a h e = ground (arith, keep_snoc p xs a h)

  -- Once it is flushed, a query that found nothing finds what was added.
  pub first-flush-add :
      (p : A → Bool) (rs : Table A) (a : A)
      → IsClean rs
      → p a ≡ true
      → first p rs ≡ none
      → first p (flush (add a rs)) ≡ some a
  first-flush-add p rs a c h e =
      rw
        (
          select_clean p (flush (add a rs)) (flush-IsClean (add a rs)),
          live_rows-flush (add a rs),
          live_rows-add a rs,
        )
        (keep_snoc p (live_rows rs) a h (rw (select_clean p rs c) at e))

  -- Before that, it still finds nothing.
  pub select-add : (p : A → Bool) (rs : Table A) (a : A) → select p (add a rs) ≡ select p rs
  unfolding select add
  select-add p [] a = refl
  select-add p (r ∷ rs) a = ground (arith, select-add p rs a)

module _ {A : Type 0} ⦃e : Entity A⦄ where
  -- The object with the key of `a` becomes `a`.
  abbrev pub replace_row : A → List A → List A
  replace_row a [] = []
  replace_row a (x ∷ xs) = (if e.id x == e.id a then a else x) ∷ replace_row a xs

  pub live_rows-put : (a : A) (rs : Table A) → live_rows (put a rs) ≡ replace_row a (live_rows rs)
  unfolding put live_rows
  live_rows-put a [] = refl
  live_rows-put a (r ∷ rs) = ground (arith, live_rows-put a rs)

  pub All-replace_row :
      (P : A → Type 0) (a : A) (xs : List A) → P a → All P xs → All P (replace_row a xs)
  All-replace_row P a [] h hs = tt
  All-replace_row P a (x ∷ xs) h hs = ground (arith, All-replace_row P a xs h hs.1)

  -- Whatever has the key of `a` now is `a`.
  pub replace_row_self :
      (P : A → Type 0) (a : A) (xs : List A)
      → P a
      → All (λ x. e.id x ≡ e.id a → P x) (replace_row a xs)
  replace_row_self P a [] h = tt
  replace_row_self P a (x ∷ xs) h = ground (arith, replace_row_self P a xs h)

  -- Every key of the table lies below the next one.
  pub next_id_fresh : (rs : Table A) → All (λ a. e.id a < next_id rs) (live_rows rs)
  unfolding next_id live_rows
  next_id_fresh [] = tt
  next_id_fresh (r ∷ rs) =
      (omega arith, All-mono _ _ (live_rows rs) (λ a h. omega arith) (next_id_fresh rs))

  head?-keep-replace_row :
      (p : A → Bool) (a a' : A) (xs : List A)
      → e.id a' ≡ e.id a
      → p a' ≡ true
      → head? (keep p xs) ≡ some a
      → head? (keep p (replace_row a' xs)) ≡ some a'
  head?-keep-replace_row p a a' [] same h found = cc
  head?-keep-replace_row p a a' (x ∷ xs) same h found = elim (Bool-cases (e.id x == e.id a')) [
    | inl hit ↦ rw (hit, h)
    | inr miss ↦ elim (Bool-cases (p x)) [
      | inl pass ↦
          let here : x ≡ a = some-injective x a (rw pass at found) in
          absurd (not_same x a here same miss)
      | inr out ↦ rw (miss, out) (head?-keep-replace_row p a a' xs same h (rw out at found))
    ]
  ]
    where
      not_same : (x a : A) → x ≡ a → e.id a' ≡ e.id a → (e.id x == e.id a') ≡ false → ⊥
      not_same x a here same miss = ground (arith, ap e.id here)

  -- The row that a query finds first, changed in place, is what the query finds after a flush.
  pub first-flush-put :
      (p : A → Bool) (rs : Table A) (a a' : A)
      → IsClean rs
      → e.id a' ≡ e.id a
      → p a' ≡ true
      → first p rs ≡ some a
      → first p (flush (put a' rs)) ≡ some a'
  first-flush-put p rs a a' c same h found =
      rw
        (
          select_clean p (flush (put a' rs)) (flush-IsClean (put a' rs)),
          live_rows-flush (put a' rs),
          live_rows-put a' rs,
        )
        (head?-keep-replace_row p a a' (live_rows rs) same h (rw (select_clean p rs c) at found))

module _ {A : Type 0} where
  pub flush-flush : (rs : Table A) → flush (flush rs) ≡ flush rs
  unfolding flush
  flush-flush [] = refl
  flush-flush (r ∷ rs) = ap (◌∷◌ (loaded r.live)) (flush-flush rs)

  pub first_clean_flush :
      (p : A → Bool) (rs : Table A) → IsClean rs → first p (flush rs) ≡ first p rs
  first_clean_flush p rs c =
      rw (select_clean p (flush rs) (flush-IsClean rs), live_rows-flush rs, select_clean p rs c)

  -- A bulk delete leaves the objects that fail its test.
  pub live_rows-delete_where :
      (p : A → Bool) (rs : Table A)
      → IsClean rs
      → live_rows (delete_where p rs) ≡ keep (λ a. not (p a)) (live_rows rs)
  unfolding delete_where live_rows
  live_rows-delete_where p [] c = refl
  live_rows-delete_where p (r ∷ rs) c = ground (arith, live_rows-delete_where p rs c.1)
