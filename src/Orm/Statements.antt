-- ===== src/Orm/Statements.antt =====
-- The SQL statements of DB (src/framework/orm.h), as data and as the texts that are sent.
use wlan_cloud_ucentralfms.Common.{
  ℕ, ◌+◌, not, ◌||◌, Option, none, some, List, [], ◌∷◌, ◌++◌, map, num_eq, if◌then◌else◌, ◌==◌,
  num_Eq, Text, codes, text_Eq, is_empty, to_string,
}
use wlan_cloud_ucentralfms.Poco.{Poco}
use wlan_cloud_ucentralfms.Orm.Schema.{DbType, Schema, valid_field_name, sqlite, pgsql, mysql}

-- One constructor for each statement shape; `T` is the tuple of the table's columns.
pub data Statement (T : Type 0) : Type 0 where
  insert_row : T → Statement T
  select_all : Statement T
  select_by : Text → Text → Statement T
  select_where : Text → Text → ℕ → ℕ → Statement T
  update_by : Text → Text → T → Statement T
  delete_by : Text → Text → Statement T
  delete_where : Text → Statement T

unfoldable pub compute_range : DbType → ℕ → ℕ → Text
compute_range sqlite from how_many =
    codes " LIMIT " ++ to_string from ++ codes ", " ++ to_string how_many ++ codes " "
compute_range pgsql from how_many =
    codes " LIMIT " ++ to_string how_many ++ codes " OFFSET " ++ to_string from ++ codes " "
compute_range mysql from how_many =
    codes " LIMIT " ++ to_string how_many ++ codes " OFFSET " ++ to_string from ++ codes " "

-- Each mark becomes $1, $2 and so on.
unfoldable pub number_params : ℕ → Text → Text
number_params idx [] = []
number_params idx (c ∷ s) =
    if num_eq c b'?'
    then b'$' ∷ to_string idx ++ number_params (if num_eq c b'?' then idx + 1 else idx) s
    else c ∷ number_params (if num_eq c b'?' then idx + 1 else idx) s

unfoldable pub convert_params : DbType → Text → Text
unfolding number_params
convert_params pgsql s = number_params 1 s
convert_params sqlite s = s
convert_params mysql s = s

abbrev where_part : Text → Text
where_part [] = []
where_part (c ∷ w) = codes " where " ++ c ∷ w

-- The text sent for a statement; the values go beside it as parameters.
unfoldable pub statement_text : {T : Type 0} → Schema → Statement T → Text
statement_text s (insert_row t) = convert_params s.type (
    codes "insert into  "
    ++ s.table_name
    ++ codes " ( "
    ++ s.select_fields
    ++ codes " ) values "
    ++ s.select_list)
statement_text s select_all = codes "SELECT Id, Release FROM " ++ s.table_name
statement_text s (select_by field value) = convert_params s.type (
    codes "select "
    ++ s.select_fields
    ++ codes " from "
    ++ s.table_name
    ++ codes " where "
    ++ field
    ++ codes "=?"
    ++ codes " limit 1")
statement_text s (select_where where_clause order_by offset how_many) =
    codes "select "
    ++ s.select_fields
    ++ codes " from "
    ++ s.table_name
    ++ where_part where_clause
    ++ order_by
    ++ compute_range s.type offset how_many
statement_text s (update_by field value t) = convert_params s.type (
    codes "update "
    ++ s.table_name
    ++ codes " set "
    ++ s.update_fields
    ++ codes " where "
    ++ field
    ++ codes "=?")
statement_text s (delete_by field value) =
    convert_params s.type
      (codes "delete from " ++ s.table_name ++ codes " where " ++ field ++ codes "=?")
statement_text s (delete_where where_clause) =
    codes "delete from " ++ s.table_name ++ codes " where " ++ where_clause

abbrev order_item : Text → Text → Text → Text
order_item list column direction =
    (if is_empty list then [] else list ++ codes " , ")
    ++ column
    ++ (if direction == codes "a" then codes " ASC" else codes " DESC")

-- The loop of PrepareOrderBy; `none` where it returns false.
unfoldable pub order_items : Poco → Schema → Text → List (List Text) → Option Text
unfolding valid_field_name
order_items poco s list [] = some list
order_items poco s list ((column ∷ direction ∷ []) ∷ items) =
    let rest = order_items poco s (order_item list column direction) items in
    if not (direction == codes "a" || direction == codes "d")
      || not (valid_field_name poco s column)
    then none
    else rest
order_items poco s list (item ∷ items) = none

-- `none` for false; the order clause is empty where no item is given.
unfoldable pub prepare_order_by : Poco → Schema → Text → Option Text
unfolding order_items
prepare_order_by poco s order_by_list =
    elim (order_items poco s []
      (map (λ i. poco.tokenize i (codes ":")) (poco.tokenize order_by_list (codes ",")))) [
        | none ↦ none
        | some list ↦ some (if is_empty list then [] else codes " ORDER BY " ++ list)
      ]
