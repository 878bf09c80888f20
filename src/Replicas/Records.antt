-- ===== src/Replicas/Records.antt =====
-- File records with distinct keys: changing one of them in a list.
use knowledge_flywheel.Base.{
  ℕ, true, List, [], ◌∷◌, ◌++◌, ◌≡◌, ◌≢◌, refl, ap, sym, ◌∙◌, All, AllDistinct, map, Bool-cases,
  inl, inr, ◌==◌, ==_iff,
}
use knowledge_flywheel.Store.Laws.{replace_row}
use knowledge_flywheel.Models.Rows.{FileRecord, file_entity}

abbrev pub id_of : FileRecord → ℕ
id_of f = f.id

All-middle :
    (P : ℕ → Type 0) (xs : List FileRecord) (f : FileRecord) (ys : List FileRecord)
    → All P (map id_of (xs ++ f ∷ ys))
    → P f.id
All-middle P [] f ys h = h.0
All-middle P (x ∷ xs) f ys h = All-middle P xs f ys h.1

All-ids :
    (n : ℕ) (xs : List FileRecord)
    → All (λ m. m ≢ n) (map id_of xs)
    → All (λ (x : FileRecord). x.id ≢ n) xs
All-ids n [] h = tt
All-ids n (x ∷ xs) h = (h.0, All-ids n xs h.1)

-- The other records have other keys.
pub distinct_around :
    (xs : List FileRecord) (f : FileRecord) (ys : List FileRecord)
    → AllDistinct (map id_of (xs ++ f ∷ ys))
    → All (λ (x : FileRecord). x.id ≢ f.id) xs × All (λ (x : FileRecord). x.id ≢ f.id) ys
distinct_around [] f ys d = (tt, All-ids f.id ys d.0)
distinct_around (x ∷ xs) f ys d =
    let (before, after) = distinct_around xs f ys d.1 in
    ((λ e. All-middle (λ m. m ≢ x.id) xs f ys d.0 (sym e), before), after)

replace_row_none :
    (g : FileRecord) (xs : List FileRecord)
    → All (λ (x : FileRecord). x.id ≢ g.id) xs
    → replace_row g xs ≡ xs
replace_row_none g [] h = refl
replace_row_none g (x ∷ xs) h = elim (Bool-cases (x.id == g.id)) [
  | inl same ↦ absurd (h.0 ((==_iff x.id g.id).0 same))
  | inr other ↦ rw other (ap (◌∷◌ x) (replace_row_none g xs h.1))
]

pub replace_row_middle :
    (g : FileRecord) (xs : List FileRecord) (f : FileRecord) (ys : List FileRecord)
    → g.id ≡ f.id
    → All (λ (x : FileRecord). x.id ≢ f.id) xs
    → All (λ (x : FileRecord). x.id ≢ f.id) ys
    → replace_row g (xs ++ f ∷ ys) ≡ xs ++ g ∷ ys
replace_row_middle g [] f ys same before after =
    let here : (f.id == g.id) ≡ true = (==_iff f.id g.id).1 (sym same) in
    rw here (ap (◌∷◌ g) (replace_row_none g ys (rw same after)))
replace_row_middle g (x ∷ xs) f ys same before after = elim (Bool-cases (x.id == g.id)) [
  | inl hit ↦ absurd (before.0 ((==_iff x.id g.id).0 hit ∙ same))
  | inr other ↦ rw other (ap (◌∷◌ x) (replace_row_middle g xs f ys same before.1 after))
]

pub same_ids :
    (xs : List FileRecord) (g f : FileRecord) (ys : List FileRecord)
    → g.id ≡ f.id
    → map id_of ((xs ++ g ∷ []) ++ ys) ≡ map id_of (xs ++ f ∷ ys)
same_ids [] g f ys e = ap (λ n. n ∷ map id_of ys) e
same_ids (x ∷ xs) g f ys e = ap (◌∷◌ x.id) (same_ids xs g f ys e)
