-- ===== src/Orm/Schema/Places.antt =====
-- A statement names its columns and its parameters in the same order.
use wlan_cloud_ucentralfms.Common.{
  ℕ, ◌+◌, ◌≡◌, refl, sym, ap, ◌∙◌, true, false, List, [], ◌∷◌, ◌++◌, map, append-nil, append_assoc,
  Text, codes,
}
use wlan_cloud_ucentralfms.Poco.{Poco}
use wlan_cloud_ucentralfms.Orm.Schema.{
  DbType, Field, Index, Schema, comma, add_field, add_fields, index_statements, no_fields, schema,
}

-- Texts with a comma in front of each, and with commas between them.
pub joined : List Text → Text
joined [] = []
joined (t ∷ ts) = comma ++ (t ++ joined ts)

pub join : List Text → Text
unfolding joined
join [] = []
join (t ∷ ts) = t ++ joined ts

module _ (poco : Poco) where
  abbrev pub column : Field → Text
  column f = poco.to_lower f.name

  add_fields-joined :
      (fields : List Field) (place : ℕ) (s : Schema)
      → let r = add_fields poco false place fields s in
        (r.select_fields ≡ s.select_fields ++ joined (map column fields))
        × (r.update_fields ≡ s.update_fields ++ joined (map (λ f. column f ++ codes "=?") fields))
        × (r.select_list ≡ s.select_list ++ joined (map (λ f. codes "?") fields))
        × (r.table_name ≡ s.table_name)
  unfolding add_fields joined
  add_fields-joined [] place s = (sym (append-nil _), sym (append-nil _), sym (append-nil _), refl)
  add_fields-joined (f ∷ fields) place s =
      let ih = add_fields-joined fields (place + 1) (add_field poco false place f s) in
      (ih.0 ∙ simp append_assoc, ih.1 ∙ simp append_assoc, ih.2 ∙ simp append_assoc, ih.3)

  -- The constructor lists the columns of every statement in the order of the fields: a SELECT names
  -- them, an UPDATE sets each to a parameter, and an INSERT has one parameter for each of them.
  pub schema-join :
      (type : DbType) (table : Text) (f : Field) (fields : List Field) (indexes : List Index)
      → let s = schema poco type table (f ∷ fields) indexes in
        (s.select_fields ≡ join (map column (f ∷ fields)))
        × (s.update_fields ≡ join (map (λ g. column g ++ codes "=?") (f ∷ fields)))
        × (s.select_list ≡ codes "(" ++ join (map (λ g. codes "?") (f ∷ fields)) ++ codes ")")
  unfolding schema join add_fields
  schema-join type table f fields indexes =
      let ih = add_fields-joined fields (0 + 1) (
        add_field poco true 0 f
          (no_fields type table (index_statements poco type table indexes))) in
      (ih.0, ih.1, ap (λ t. t ++ codes ")") ih.2)
