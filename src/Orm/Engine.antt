-- ===== src/Orm/Engine.antt =====
-- The record operations of DB (src/framework/orm.h) over the SQL engine, which Poco::Data reaches
-- and which is a parameter: what it does with a statement is not code of the repository. `none` is a
-- Poco::Exception, which leaves the database as it was (each change is one statement, inside
-- begin and commit or committed by itself). No DB of the service has a record cache (Cache_ is null).
pub mod Laws
pub mod Pages
pub mod Model
use wlan_cloud_ucentralfms.Common.{
  ℕ, zero, suc, ◌+◌, Bool, true, false, not, ◌||◌, Option, none, some, List, [], ◌∷◌, map, ltb,
  if◌then◌else◌, length, Text,
}
use wlan_cloud_ucentralfms.Orm.Statements.{
  Statement, insert_row, select_by, select_where, update_by, delete_by, delete_where,
}

-- A database of one table: what a statement returns, and what it leaves.
pub record Engine (T : Type 0) : Type 1 where
  pub Db : Type 0
  pub query : Statement T → Db → Option (List T)
  pub execute : Statement T → Db → Option Db

-- The two functions Convert between a record and its tuple of columns.
pub record Convert (T R : Type 0) : Type 0 where
  pub to_tuple : R → T
  pub of_tuple : T → R

abbrev pub done {ℓ} : {D : Type ℓ} → D → Option D → D × Bool
done db none = (db, false)
done db (some db') = (db', true)

abbrev pub only : {T R : Type 0} → (T → R) → List T → Option R
only f (t ∷ []) = some (f t)
only f ts = none

abbrev pub some_rows : {T R : Type 0} → (T → R) → List T → Option (List R)
some_rows f [] = none
some_rows f (t ∷ ts) = some (f t ∷ map f ts)

module _ {T R : Type 0} (c : Convert T R) (e : Engine T) where
  unfoldable pub create_record : R → e.Db → e.Db × Bool
  create_record r db = done db (e.execute (insert_row (c.to_tuple r)) db)

  -- The statement is executed twice, and the second execution must give one row.
  unfoldable pub get_record : Text → Text → e.Db → Option R
  get_record field value db = elim (e.query (select_by field value) db) [
    | none ↦ none
    | some first ↦ elim (e.query (select_by field value) db) [
      | none ↦ none
      | some second ↦ only c.of_tuple second
    ]
  ]

  -- `none` for the result false: no row, or an exception.
  unfoldable pub get_records : ℕ → ℕ → Text → Text → e.Db → Option (List R)
  get_records offset how_many where_clause order_by db =
      elim (e.query (select_where where_clause order_by offset how_many) db) [
        | none ↦ none
        | some rows ↦ some_rows c.of_tuple rows
      ]

  unfoldable pub update_record : Text → Text → R → e.Db → e.Db × Bool
  update_record field value r db = done db (e.execute (update_by field value (c.to_tuple r)) db)

  unfoldable pub delete_record : Text → Text → e.Db → e.Db × Bool
  delete_record field value db = done db (e.execute (delete_by field value) db)

  unfoldable pub delete_records : Text → e.Db → e.Db × Bool
  delete_records where_clause db = done db (e.execute (delete_where where_clause) db)

  unfoldable pub exists : Text → Text → e.Db → Bool
  exists field value db = elim (get_record field value db) [ none ↦ false | some r ↦ true ]

  unfoldable pub replace_record : Text → Text → R → e.Db → e.Db × Bool
  unfolding exists update_record create_record
  replace_record field value r db =
      if exists field value db then update_record field value r db else create_record r db

-- The callback of Iterate: it may ask to stop by returning false.
abbrev pub visit {ℓ} : {R : Type 0} {S : Type ℓ} → (R → S → Bool × S) → List R → S → Bool × S
visit f [] s = (true, s)
visit f (r ∷ rs) s =
    let (more, s') = f r s in let rest = visit f rs s' in if more then rest else (false, s')

abbrev pub batch : ℕ
batch = 50

module _ {ℓ} {T R : Type 0} {S : Type ℓ} (c : Convert T R) (e : Engine T) where
  -- Iterate: batches of 50 until a batch is short, empty or failed, or the callback says so. `none`
  -- means that the fuel ran out.
  unfoldable pub iterate : ℕ → ℕ → (R → S → Bool × S) → Text → e.Db → S → Option S
  iterate zero offset f where_clause db s = none
  iterate (suc fuel) offset f where_clause db s =
      elim (get_records c e offset batch where_clause [] db) [
        | none ↦ some s
        | some records ↦
            let (more, s') = visit f records s in
            elim (not more || ltb (length records) batch) [
              | true ↦ some s'
              | false ↦ iterate fuel (offset + batch) f where_clause db s'
            ]
      ]
