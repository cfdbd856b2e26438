-- ===== src/Orm/Tests.antt =====
-- The object mapper on concrete clauses, schemas and tables.
use wlan_cloud_ucentralfms.Common.{
  ℕ, ◌+◌, ◌≡◌, true, some, [], ◌∷◌, ◌++◌, map, arith, codes, to_string,
}
use wlan_cloud_ucentralfms.Orm.Engine.{Engine, iterate}
use wlan_cloud_ucentralfms.Orm.Engine.Model.{list_engine, list_engine-IsPaged}
use wlan_cloud_ucentralfms.Orm.Engine.Pages.{visit_all, iterate-visit_all}
use wlan_cloud_ucentralfms.Orm.Schema.{Field, field_of_type, ft_bigint, ft_text}
use wlan_cloud_ucentralfms.Orm.Where.{quote, escape, SqlBinaryOp, op_chain}
use wlan_cloud_ucentralfms.Orm.Where.Literals.{read_literal, read_literal-escape}
use wlan_cloud_ucentralfms.Orm.Where.Parentheses.{count, count_operands, op_chain-parentheses}

read_literal-escape_example :
    read_literal true (escape (codes "o'b") ++ quote ∷ codes " AND")
    ≡ some (codes "o'b", codes " AND")
read_literal-escape_example =
    read_literal-escape true (codes "o'b") (codes " AND")
      (λ e. omega (arith, e), (λ e. omega (arith, e), (λ e. omega (arith, e), tt)))
      (λ e. omega (arith, e))

-- ((a AND b) OR c) AND d, as the code writes it.
op_chain-parentheses_example :
    (count b'(' (
        op_chain
          (codes "a")
          SqlBinaryOp.and
          (codes "b")
          ((SqlBinaryOp.or, codes "c") ∷ (SqlBinaryOp.and, codes "d") ∷ []))
      ≡ count b'(' (codes "a")
        + count_operands b'(' (
            (SqlBinaryOp.and, codes "b")
            ∷ (SqlBinaryOp.or, codes "c")
            ∷ (SqlBinaryOp.and, codes "d")
            ∷ [])
        + 1)
    × (count b')' (
          op_chain
            (codes "a")
            SqlBinaryOp.and
            (codes "b")
            ((SqlBinaryOp.or, codes "c") ∷ (SqlBinaryOp.and, codes "d") ∷ []))
        ≡ count b')' (codes "a")
          + count_operands b')' (
              (SqlBinaryOp.and, codes "b")
              ∷ (SqlBinaryOp.or, codes "c")
              ∷ (SqlBinaryOp.and, codes "d")
              ∷ [])
          + 2)
op_chain-parentheses_example =
    op_chain-parentheses (codes "a") SqlBinaryOp.and (codes "b") (SqlBinaryOp.or, codes "c")
      ((SqlBinaryOp.and, codes "d") ∷ [])

abbrev id_field : Field
id_field = field_of_type (codes "id") ft_text

abbrev date_field : Field
date_field = field_of_type (codes "date") ft_bigint

-- A table of numbers, all of which meet every clause.
abbrev numbers : Engine ℕ
numbers = list_engine (λ f n. to_string n) (λ w n. true)

iterate-visit_all_example :
    iterate
      (record { to_tuple = λ n. n; of_tuple = λ n. n })
      numbers
      1
      0
      (λ r t. (true, r + t))
      []
      (3 ∷ 4 ∷ [])
      0
    ≡ some (visit_all (λ (r t : ℕ). r + t) (map (λ (n : ℕ). n) (3 ∷ 4 ∷ [])) 0)
unfolding list_engine-IsPaged
iterate-visit_all_example =
    iterate-visit_all (record { to_tuple = λ n. n; of_tuple = λ n. n }) numbers
      (list_engine-IsPaged (λ f n. to_string n) (λ w n. true)) (λ r t. r + t) [] (3 ∷ 4 ∷ []) 1 0
      (omega arith)
