-- ===== src/Orm/Schema.antt =====
-- The tables as the constructor of ORM::DB describes them: the field lists of every statement and
-- the statements that create indexes (src/framework/orm.h).
pub mod Places
use wlan_cloud_ucentralfms.Common.{
  ℕ, ◌+◌, Bool, true, false, ◌&&◌, none, some, List, [], ◌∷◌, ◌++◌, ltb, num_eq, if◌then◌else◌,
  Text, codes, Map, lookup, insert, to_string,
}
use wlan_cloud_ucentralfms.Poco.{Poco}

pub data DbType : Type 0 where
  sqlite pgsql mysql : DbType

pub data FieldType : Type 0 where
  ft_int ft_bigint ft_text ft_varchar ft_blob ft_boolean ft_real : FieldType

pub data Indextype : Type 0 where
  asc desc : Indextype

pub record Field : Type 0 where
  pub name : Text
  pub type : FieldType
  pub size : ℕ
  pub index : Bool

-- Field(N, T), and Field(N, S, I) which chooses the type by the size.
abbrev pub field_of_type : Text → FieldType → Field
field_of_type name type = record { name = name; type = type; size = 0; index = false }

unfoldable pub sized_field : Text → ℕ → Bool → Field
sized_field name size index = record {
  name = name;
  type = if ltb 0 size && ltb size 255 then ft_varchar else ft_text;
  size = size;
  index = index;
}

pub record Index : Type 0 where
  pub name : Text
  pub entries : List (Text × Indextype)

unfoldable pub field_type_to_char : DbType → FieldType → ℕ → Text
field_type_to_char type ft_int size = codes "INT"
field_type_to_char type ft_bigint size = codes "BIGINT"
field_type_to_char type ft_text size = codes "TEXT"
field_type_to_char type ft_boolean size = codes "BOOLEAN"
field_type_to_char type ft_varchar size =
    if num_eq size 0 then codes "TEXT" else codes "VARCHAR(" ++ to_string size ++ codes ")"
field_type_to_char mysql ft_blob size = codes "LONGBLOB"
field_type_to_char pgsql ft_blob size = codes "BYTEA"
field_type_to_char sqlite ft_blob size = codes "BLOB"
field_type_to_char type ft_real size = codes "REAL"

pub record Schema : Type 0 where
  pub table_name : Text
  pub type : DbType
  pub create_fields : Text
  pub select_fields : Text
  pub update_fields : Text
  pub select_list : Text
  pub field_names : Map ℕ
  pub index_creation : List Text

abbrev pub comma : Text
comma = codes ", "

-- One round of the constructor's loop over the fields.
unfoldable pub add_field : Poco → Bool → ℕ → Field → Schema → Schema
unfolding field_type_to_char
add_field poco first place f s =
    let field_name = poco.to_lower f.name in
    let separator : Text = if first then [] else comma in
    record s {
      field_names = insert field_name place s.field_names;
      create_fields =
          s.create_fields
          ++ separator
          ++ field_name
          ++ codes " "
          ++ field_type_to_char s.type f.type f.size
          ++ (if f.index then codes " unique primary key" else []);
      select_fields = s.select_fields ++ separator ++ field_name;
      update_fields = s.update_fields ++ separator ++ field_name ++ codes "=?";
      select_list = s.select_list ++ (if first then codes "(" else comma) ++ codes "?";
    }

unfoldable pub add_fields : Poco → Bool → ℕ → List Field → Schema → Schema
unfolding add_field
add_fields poco first place [] s = s
add_fields poco first place (f ∷ fields) s =
    add_fields poco false (place + 1) fields (add_field poco first place f s)

-- The entries of an index, with the separator and the directions of the database.
unfoldable pub index_entries : Poco → Bool → Text → Text → Text → List (Text × Indextype) → Text
index_entries poco first separator up down [] = []
index_entries poco first separator up down ((name, type) ∷ entries) =
    (if first then [] else separator)
    ++ poco.to_lower name
    ++ elim type [ asc ↦ up | desc ↦ down ]
    ++ index_entries poco false separator up down entries

-- One statement for each index.
unfoldable pub create_indexes : Poco → Text → List Index → List Text
unfolding index_entries
create_indexes poco table [] = []
create_indexes poco table (j ∷ indexes) =
    (codes "CREATE INDEX IF NOT EXISTS "
      ++ j.name
      ++ codes " ON "
      ++ table
      ++ codes " ("
      ++ index_entries poco true (codes " , ") (codes " ASC") (codes " DESC") j.entries
      ++ codes " )")
    ∷ create_indexes poco table indexes

-- One line for all the indexes.
unfoldable pub mysql_indexes : Poco → Bool → List Index → Text
unfolding index_entries
mysql_indexes poco first [] = []
mysql_indexes poco first (j ∷ indexes) =
    (if first then [] else comma)
    ++ codes " INDEX "
    ++ j.name
    ++ codes " ( "
    ++ index_entries poco true (codes " ,") (codes " ASC") (codes " DESC") j.entries
    ++ codes " ) "
    ++ mysql_indexes poco false indexes

abbrev pub index_statements : Poco → DbType → Text → List Index → List Text
index_statements poco type table [] = []
index_statements poco mysql table (j ∷ indexes) = mysql_indexes poco true (j ∷ indexes) ∷ []
index_statements poco type table (j ∷ indexes) = create_indexes poco table (j ∷ indexes)

abbrev pub no_fields : DbType → Text → List Text → Schema
no_fields type table index_creation = record {
  table_name = table;
  type = type;
  create_fields = [];
  select_fields = [];
  update_fields = [];
  select_list = [];
  field_names = [];
  index_creation = index_creation;
}

-- The constructor of DB.
unfoldable pub schema : Poco → DbType → Text → List Field → List Index → Schema
unfolding add_fields create_indexes mysql_indexes
schema poco type table fields indexes =
    let s =
      add_fields poco true 0 fields
        (no_fields type table (index_statements poco type table indexes)) in
    record s { select_list = s.select_list ++ codes ")" }

unfoldable pub valid_field_name : Poco → Schema → Text → Bool
valid_field_name poco s name = elim (lookup (poco.to_lower name) s.field_names) [
  | none ↦ false
  | some place ↦ true
]
