-- ===== src/Table.antt =====
-- A PostgreSQL table under its primary key: select, insert and update of one row by its key.
-- Clients reason with `table_laws`. The order of rows, which SQL
-- leaves open without an ORDER BY, is that of `rows`.
use sawtai.Prelude.{
  ℕ, ◌≡◌, refl, Bool, true, Option, none, some, List, [], ◌∷◌, arith, ◌==◌, any, if◌then◌else◌,
}

pub record Table {ℓ} (V : Type ℓ) : Type ℓ where
  entries : List (ℕ × V)

module _ {ℓ} {V : Type ℓ} where
  -- the row with a key, from the front
  unfoldable pub seek : List (ℕ × V) → ℕ → Option V
  seek [] key = none
  seek ((i, row) ∷ more) key = let later = seek more key in if i == key then some row else later

  -- all rows but those with a key
  purge : List (ℕ × V) → ℕ → List (ℕ × V)
  purge [] key = []
  purge ((i, row) ∷ more) key =
      let others = purge more key in if i == key then others else (i, row) ∷ others

  adjust : ℕ → (V → Bool) → (V → V) → List (ℕ × V) → List (ℕ × V)
  adjust k p f [] = []
  adjust k p f ((j, v) ∷ l) =
      if j == k then (j, if p v then f v else v) ∷ l else (j, v) ∷ adjust k p f l

  unfoldable pub empty : Table V
  empty = record { entries = [] }

  unfoldable pub get : Table V → ℕ → Option V
  get t k = seek t.entries k

  -- INSERT of a row whose key is free
  unfoldable pub put : Table V → ℕ → V → Table V
  unfolding purge
  put t k v = record { entries = (k, v) ∷ purge t.entries k }

  -- UPDATE ... SET f WHERE key = k AND p
  pub update : Table V → ℕ → (V → Bool) → (V → V) → Table V
  update t k p f = record { entries = adjust k p f t.entries }

  unfoldable pub rows : Table V → List (ℕ × V)
  rows t = t.entries

  seek-purge :
      (more : List (ℕ × V)) (gone key : ℕ)
      → seek (purge more gone) key ≡ (if gone == key then none else seek more key)
  unfolding seek purge
  seek-purge [] gone key = ground arith
  seek-purge ((i, row) ∷ more) gone key = ground (arith, seek-purge more gone key)

  abbrev pub changed : (V → Bool) → (V → V) → Option V → Option V
  changed p f none = none
  changed p f (some v) = if p v then some (f v) else some v

  seek-adjust :
      (k j : ℕ) (p : V → Bool) (f : V → V) (l : List (ℕ × V))
      → seek (adjust k p f l) j ≡ (if k == j then changed p f (seek l j) else seek l j)
  unfolding seek adjust
  seek-adjust k j p f [] = ground arith
  seek-adjust k j p f ((i, v) ∷ l) = ground (arith, seek-adjust k j p f l)

  pub get-put :
      (t : Table V) (k j : ℕ) (v : V) → get (put t k v) j ≡ (if k == j then some v else get t j)
  unfolding get put seek
  get-put t k j v = ground (arith, seek-purge t.entries k j)

  pub get-update :
      (t : Table V) (k j : ℕ) (p : V → Bool) (f : V → V)
      → get (update t k p f) j ≡ (if k == j then changed p f (get t j) else get t j)
  unfolding get update
  get-update t k j p f = seek-adjust k j p f t.entries

  any-seek :
      (k : ℕ) (v : V) (p : ℕ × V → Bool) (l : List (ℕ × V))
      → seek l k ≡ some v
      → p (k, v) ≡ true
      → any p l ≡ true
  unfolding seek
  any-seek k v p [] e h = cc
  any-seek k v p ((j, w) ∷ l) e h = ground (arith, any-seek k v p l)

  -- a row that is found by its key is among the rows
  pub any-rows :
      (t : Table V) (k : ℕ) (v : V) (p : ℕ × V → Bool)
      → get t k ≡ some v
      → p (k, v) ≡ true
      → any p (rows t) ≡ true
  unfolding get rows
  any-rows t k v p = any-seek k v p t.entries

pub get-empty {ℓ} : {V : Type ℓ} (k : ℕ) → get (empty {V = V}) k ≡ none
unfolding get empty seek
get-empty k = refl

pub rows-empty {ℓ} : {V : Type ℓ} → rows (empty {V = V}) ≡ []
unfolding rows empty
rows-empty = refl

pub ruleset table_laws = (get-empty, get-put, get-update)
