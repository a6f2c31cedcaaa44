-- ===== src/NightShifts/Storage/Table.antt =====
-- A table with a primary key, as the statements of night_shifts/storage/sqlite.py use it. Rows
-- stand in the order of insertion.
use simple_ai_agent.Common.{
  ℕ, ◌+◌, ◌≡◌, refl, String, ◌==◌, eq_iff, Option, none, some, List, [], ◌∷◌, ◌++◌, arith,
  if◌then◌else◌,
}

module _ {R : Type 0} (key : R → String) where
  -- `SELECT * FROM t WHERE key=?`
  unfoldable pub select_row : String → List R → Option R
  select_row k [] = none
  select_row k (r ∷ rows) = if key r == k then some r else select_row k rows

  -- `INSERT INTO t`: refused where the key is taken.
  unfoldable pub insert_row : R → List R → Option (List R)
  unfolding select_row
  insert_row r rows = elim (select_row (key r) rows) [
    | none ↦ some (rows ++ r ∷ [])
    | some _ ↦ none
  ]

  -- `UPDATE t SET … WHERE key=?`
  unfoldable pub update_rows : R → List R → List R
  update_rows r [] = []
  update_rows r (x ∷ rows) = (if key x == key r then r else x) ∷ update_rows r rows

  -- The statement's `rowcount`.
  unfoldable pub row_count : String → List R → ℕ
  row_count k [] = 0
  row_count k (x ∷ rows) = (if key x == k then 1 else 0) + row_count k rows

  -- The primary key holds: no two rows share a key.
  abbrev pub IsKeyed : List R → Type 0
  IsKeyed [] = Unit
  IsKeyed (r ∷ rows) = (select_row (key r) rows ≡ none) × IsKeyed rows

  pub key-select_row : (k : String) (rows : List R) {r : R} → select_row k rows ≡ some r → key r ≡ k
  unfolding select_row
  key-select_row k [] h = cc
  key-select_row k (x ∷ rows) {r} h =
      ground (arith, eq_iff (key x) k, key-select_row k rows {r = r})

  pub select_row-update_rows :
      (k : String) (r : R) (rows : List R)
      → select_row k (update_rows r rows)
        ≡ elim (select_row k rows) [ none ↦ none | some x ↦ some (if key r == k then r else x) ]
  unfolding select_row update_rows
  select_row-update_rows k r [] = refl
  select_row-update_rows k r (x ∷ rows) = ground (
    arith,
    eq_iff (key x) k,
    eq_iff (key r) k,
    eq_iff (key x) (key r),
    select_row-update_rows k r rows,
  )

  pub select_row-append :
      (k : String) (r : R) (rows : List R)
      → select_row k (rows ++ r ∷ [])
        ≡ elim (select_row k rows) [ none ↦ if key r == k then some r else none | some x ↦ some x ]
  unfolding select_row
  select_row-append k r [] = refl
  select_row-append k r (x ∷ rows) = ground (arith, select_row-append k r rows)

  pub row_count-none :
      (k : String) (rows : List R) → select_row k rows ≡ none → row_count k rows ≡ 0
  unfolding select_row row_count
  row_count-none k [] h = refl
  row_count-none k (x ∷ rows) h = ground (arith, row_count-none k rows)

  pub row_count-some :
      (k : String) (rows : List R) {r : R}
      → IsKeyed rows
      → select_row k rows ≡ some r
      → row_count k rows ≡ 1
  unfolding select_row row_count
  row_count-some k [] keyed h = cc
  row_count-some k (x ∷ rows) {r} keyed h =
      ground (arith, eq_iff (key x) k, row_count-none k rows, row_count-some k rows {r = r} keyed.1)

  pub update_rows-IsKeyed : (r : R) (rows : List R) → IsKeyed rows → IsKeyed (update_rows r rows)
  unfolding update_rows
  update_rows-IsKeyed r [] keyed = tt
  update_rows-IsKeyed r (x ∷ rows) keyed = ground (
    arith,
    eq_iff (key x) (key r),
    select_row-update_rows (key x) r rows,
    select_row-update_rows (key r) r rows,
    update_rows-IsKeyed r rows keyed.1,
  )

  pub append-IsKeyed :
      (r : R) (rows : List R)
      → IsKeyed rows
      → select_row (key r) rows ≡ none
      → IsKeyed (rows ++ r ∷ [])
  unfolding select_row
  append-IsKeyed r [] keyed h = (refl, tt)
  append-IsKeyed r (x ∷ rows) keyed h = ground (
    arith,
    eq_iff (key x) (key r),
    eq_iff (key r) (key x),
    select_row-append (key x) r rows,
    append-IsKeyed r rows keyed.1,
  )
