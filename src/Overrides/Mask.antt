-- ===== src/Overrides/Mask.antt =====
-- mask_secret, and the list that is shown to the administrator.
use knowledge_flywheel.Base.{
  ◌-◌, ◌≤◌, [], ◌∷◌, ◌++◌, ◌≡◌, ◌⊎◌, refl, ap, ◌∙◌, arith, length, take, drop, Bool-cases, inl, inr,
  leb,
}
use knowledge_flywheel.Parse.Split.{Text, is_empty}
use knowledge_flywheel.Overrides.Settings.{dots, mask_secret}

empty_by_length : (s t : Text) → length s ≡ length t → is_empty s ≡ is_empty t
empty_by_length [] [] e = refl
empty_by_length [] (d ∷ ds) e = absurd (omega arith)
empty_by_length (c ∷ cs) [] e = absurd (omega arith)
empty_by_length (c ∷ cs) (d ∷ ds) e = refl

-- A mask tells at most eight characters of a secret and its length: two secrets of one length have
-- the same mask where they have at most eight characters, or where their first four and their last
-- four characters agree.
pub mask_secret-hides :
    (secret other : Text)
    → length secret ≡ length other
    → (length secret ≤ 8)
      ⊎ (take 4 secret ≡ take 4 other)
        × (drop (length secret - 4) secret ≡ drop (length other - 4) other)
    → mask_secret secret ≡ mask_secret other
unfolding mask_secret
mask_secret-hides secret other n known = elim (Bool-cases (is_empty other)) [
  | inl blank ↦ rw (empty_by_length secret other n, blank) refl
  | inr full ↦ elim (Bool-cases (leb (length other) 8)) [
    | inl short ↦ rw (empty_by_length secret other n, full, n, short) refl
    | inr long ↦ elim known [
      | inl few ↦ absurd (ground arith)
      | inr (front, back) ↦
          rw (empty_by_length secret other n, full)
            (rw (n, long)
              (ap (λ xs. xs ++ (dots 6 ++ drop (length other - 4) secret)) front
                ∙ ap (λ xs. take 4 other ++ (dots 6 ++ xs)) (rw n at back)))
    ]
  ]
]
