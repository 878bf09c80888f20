-- ===== src/Store/Order.antt =====
-- `order_by(...)` with `.first()`: the least element of a query's result in a total order.
use knowledge_flywheel.Base.{
  ap, ◌∙◌, suc, length, Bool, true, false, Option, none, some, List, [], ◌∷◌, ◌≡◌, refl, sym, subst,
  inl, inr, arith, All, All-mono, if◌then◌else◌, Option-cases, Bool-cases,
}

module _ {A : Type 0} (le : A → A → Bool) where
  unfoldable pub least : List A → Option A
  least [] = none
  least (x ∷ xs) = elim (least xs) [ none ↦ some x | some y ↦ some (if le x y then x else y) ]

  pub least-All : (P : A → Type 0) (xs : List A) (t : A) → All P xs → least xs ≡ some t → P t
  unfolding least
  least-All P [] t h e = cc
  least-All P (x ∷ xs) t h e = elim (Option-cases (least xs)) [
    | inl n ↦ ground arith
    | inr (y, s) ↦ ground (arith, least-All P xs y h.1 s)
  ]

  pub least-eq-none : (xs : List A) → least xs ≡ none → xs ≡ []
  unfolding least
  least-eq-none [] e = refl
  least-eq-none (x ∷ xs) e = ground arith

  -- The result comes before every other element.
  pub least_is_first :
      ((a b c : A) → le a b ≡ true → le b c ≡ true → le a c ≡ true)
      → ((a b : A) → le a b ≡ false → le b a ≡ true)
      → (xs : List A) (t : A) → least xs ≡ some t
      → All (λ x. le t x ≡ true) xs
  unfolding least
  least_is_first trans total [] t e = tt
  least_is_first trans total (x ∷ []) t e = (ground (arith, total x x), tt)
  least_is_first trans total (x ∷ z ∷ xs) t e = elim (Option-cases (least (z ∷ xs))) [
    | inl n ↦ cc (least-eq-none (z ∷ xs) n)
    | inr (y, s) ↦ first_of_two y (least_is_first trans total (z ∷ xs) y s) (ground arith)
  ]
    where
      first_of_two :
          (y : A)
          → All (λ u. le y u ≡ true) (z ∷ xs)
          → t ≡ (if le x y then x else y)
          → All (λ u. le t u ≡ true) (x ∷ z ∷ xs)
      first_of_two y rest chosen = elim (Bool-cases (le x y)) [
        | inl before ↦
            let here : t ≡ x = ground arith in
            let rest' : All (λ u. le x u ≡ true) (z ∷ xs) =
              All-mono (λ u. le y u ≡ true) (λ u. le x u ≡ true) (z ∷ xs)
                (λ u h. trans x y u before h) rest in
            subst (λ v. All (λ u. le v u ≡ true) (x ∷ z ∷ xs)) (sym here)
              (ground (arith, total x x), rest')
        | inr after ↦
            let here : t ≡ y = ground arith in
            subst (λ v. All (λ u. le v u ≡ true) (x ∷ z ∷ xs)) (sym here) (total x y after, rest)
      ]

module _ {A : Type 0} (le : A → A → Bool) where
  unfoldable pub insert_by : A → List A → List A
  insert_by a [] = a ∷ []
  insert_by a (x ∷ xs) = if le a x then a ∷ x ∷ xs else x ∷ insert_by a xs

  -- `order_by(...)` with `.all()`
  unfoldable pub sort_by : List A → List A
  unfolding insert_by
  sort_by [] = []
  sort_by (x ∷ xs) = insert_by x (sort_by xs)

  pub insert_by-All {κ} :
      (P : A → Type κ) (a : A) (xs : List A) → P a → All P xs → All P (insert_by a xs)
  unfolding insert_by
  insert_by-All P a [] h hs = (h, tt)
  insert_by-All P a (x ∷ xs) h hs = elim (Bool-cases (le a x)) [
    | inl first ↦ rw first (h, hs)
    | inr later ↦ rw later (hs.0, insert_by-All P a xs h hs.1)
  ]

  pub sort_by-All {κ} : (P : A → Type κ) (xs : List A) → All P xs → All P (sort_by xs)
  unfolding sort_by
  sort_by-All P [] h = tt
  sort_by-All P (x ∷ xs) h = insert_by-All P x (sort_by xs) h.0 (sort_by-All P xs h.1)

  length-insert_by : (a : A) (xs : List A) → length (insert_by a xs) ≡ suc (length xs)
  unfolding insert_by
  length-insert_by a [] = refl
  length-insert_by a (x ∷ xs) = ground (arith, length-insert_by a xs)

  pub length-sort_by : (xs : List A) → length (sort_by xs) ≡ length xs
  unfolding sort_by
  length-sort_by [] = refl
  length-sort_by (x ∷ xs) = length-insert_by x (sort_by xs) ∙ ap suc (length-sort_by xs)
