-- ===== src/Store/Table.antt =====
-- Rows, queries and writes of one table.
use knowledge_flywheel.Base.{
  ℕ, suc, max, ◌==◌, if◌then◌else◌, Bool, false, Option, none, some, List, [], ◌∷◌, ◌++◌,
}

pub record Row (A : Type 0) : Type 0 where
  pub stored : Option A
  pub live : A

abbrev pub Table : Type 0 → Type 0
Table A = List (Row A)

-- The primary key of a mapped class.
pub record Entity (A : Type 0) : Type 0 where
  pub id : A → ℕ

module _ {A : Type 0} where
  -- A row that the session has loaded or flushed, and not changed since.
  abbrev pub loaded : A → Row A
  loaded a = record { stored = some a; live = a }

  abbrev pub pending_row : A → Row A
  pending_row a = record { stored = none; live = a }

  -- The `where` clause of a query: the database evaluates it, on what is stored.
  abbrev pub matches : (A → Bool) → Row A → Bool
  matches p r = elim r.stored [ none ↦ false | some a ↦ p a ]

  -- `db.scalars(select(...).where(p)).all()`
  unfoldable pub select : (A → Bool) → Table A → List A
  select p [] = []
  select p (r ∷ rs) = if matches p r then r.live ∷ select p rs else select p rs

  abbrev pub head? : List A → Option A
  head? [] = none
  head? (x ∷ xs) = some x

  -- `db.scalars(select(...).where(p)).first()`
  abbrev pub first : (A → Bool) → Table A → Option A
  first p rs = head? (select p rs)

  -- `for x in <the rows of a query>: f(x)`, which changes the objects in place.
  unfoldable pub for_each : (A → Bool) → (A → A) → Table A → Table A
  for_each p f [] = []
  for_each p f (r ∷ rs) =
      (if matches p r then record r { live = f r.live } else r) ∷ for_each p f rs

  -- `db.add(a)`
  unfoldable pub add : A → Table A → Table A
  add a rs = rs ++ pending_row a ∷ []

  -- A bulk `delete(...).where(p)`: the database evaluates it at once, on what is stored.
  unfoldable pub delete_where : (A → Bool) → Table A → Table A
  delete_where p [] = []
  delete_where p (r ∷ rs) = if matches p r then delete_where p rs else r ∷ delete_where p rs

  unfoldable pub flush : Table A → Table A
  flush [] = []
  flush (r ∷ rs) = loaded r.live ∷ flush rs

  -- The objects of the session, as a commit would store them.
  unfoldable pub live_rows : Table A → List A
  live_rows [] = []
  live_rows (r ∷ rs) = r.live ∷ live_rows rs

  -- Nothing is left to flush.
  abbrev pub IsClean : Table A → Type 0
  IsClean [] = Unit
  IsClean (r ∷ rs) = Path (Option A) r.stored (some r.live) × IsClean rs

module _ {A : Type 0} ⦃e : Entity A⦄ where
  -- `db.get(A, n)`: an object that was added and not flushed has no identity yet.
  abbrev pub get : ℕ → Table A → Option A
  get n rs = first (λ a. e.id a == n) rs

  -- Assignments to the attributes of the object whose primary key is that of `a`.
  unfoldable pub put : A → Table A → Table A
  put a [] = []
  put a (r ∷ rs) = (if e.id r.live == e.id a then record r { live = a } else r) ∷ put a rs

  -- `db.delete(a)`, once it is flushed.
  unfoldable pub remove : A → Table A → Table A
  remove a [] = []
  remove a (r ∷ rs) = if e.id r.live == e.id a then remove a rs else r ∷ remove a rs

  -- The next primary key (the rows of `autoincrement=True` tables that are referred to by key are
  -- never deleted, so the largest key plus one is the sequence's next value).
  unfoldable pub next_id : Table A → ℕ
  next_id [] = 1
  next_id (r ∷ rs) = max (suc (e.id r.live)) (next_id rs)
