-- ===== src/Orm/Engine/Laws.antt =====
-- What SQL documents of the statements: which rows they return and which they leave, as a set.
use wlan_cloud_ucentralfms.Common.{
  ℕ, ◌<◌, ◌≡◌, ◌≢◌, ◌↔◌, ◌⊎◌, Bool, true, false, some, List, length, In, Text,
}
use wlan_cloud_ucentralfms.Orm.Statements.{
  Statement, insert_row, select_all, select_by, select_where, update_by, delete_by, delete_where,
}
use wlan_cloud_ucentralfms.Orm.Engine.{Engine}

-- `column` is a text column of a row, and `holds` the truth of a where clause for a row.
pub record IsTable {T : Type 0} (e : Engine T) (column : Text → T → Text) (holds : Text → T → Bool)
    : Type 0 where
  pub rows : e.Db → List T
  pub all_rows :
      (db : e.Db) (ts : List T) (t : T) → e.query select_all db ≡ some ts → In t ts ↔ In t (rows db)
  pub by_sound :
      (f v : Text) (db : e.Db) (ts : List T) (t : T)
      → e.query (select_by f v) db ≡ some ts
      → In t ts
      → In t (rows db) × (column f t ≡ v)
  pub where_sound :
      (w o : Text) (m n : ℕ) (db : e.Db) (ts : List T) (t : T)
      → e.query (select_where w o m n) db ≡ some ts
      → In t ts
      → In t (rows db) × (holds w t ≡ true)
  -- A page from the start that is not full has every row of the clause.
  pub where_complete :
      (w o : Text) (n : ℕ) (db : e.Db) (ts : List T) (t : T)
      → e.query (select_where w o 0 n) db ≡ some ts
      → length ts < n
      → In t (rows db)
      → holds w t ≡ true
      → In t ts
  pub inserted :
      (r : T) (db db' : e.Db) (t : T)
      → e.execute (insert_row r) db ≡ some db'
      → In t (rows db') ↔ (In t (rows db) ⊎ (t ≡ r))
  pub updated :
      (f v : Text) (r : T) (db db' : e.Db) (t : T)
      → e.execute (update_by f v r) db ≡ some db'
      → In t (rows db')
      → (In t (rows db) × (column f t ≢ v)) ⊎ (t ≡ r)
  pub update_keeps :
      (f v : Text) (r : T) (db db' : e.Db) (t : T)
      → e.execute (update_by f v r) db ≡ some db'
      → In t (rows db)
      → column f t ≢ v
      → In t (rows db')
  pub deleted :
      (f v : Text) (db db' : e.Db) (t : T)
      → e.execute (delete_by f v) db ≡ some db'
      → In t (rows db') ↔ (In t (rows db) × (column f t ≢ v))
  pub deleted_where :
      (w : Text) (db db' : e.Db) (t : T)
      → e.execute (delete_where w) db ≡ some db'
      → In t (rows db') ↔ (In t (rows db) × (holds w t ≡ false))

-- No statement that changes the table throws.
abbrev pub Accepts : {T : Type 0} → Engine T → Type 0
Accepts {T} e = (s : Statement T) (db : e.Db) → (db' : e.Db) × (e.execute s db ≡ some db')
