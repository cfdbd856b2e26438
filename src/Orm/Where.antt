-- ===== src/Orm/Where.antt =====
-- Where clauses: the text functions at the top of src/framework/orm.h, and the OP family of DB.
pub mod Literals
pub mod Parentheses
use wlan_cloud_ucentralfms.Common.{
  ℕ, Bool, List, [], ◌∷◌, ◌++◌, num_eq, if◌then◌else◌, Text, codes, is_empty, to_string,
}

-- The single quote.
abbrev pub quote : ℕ
quote = 39

unfoldable pub escape : Text → Text
escape [] = []
escape (c ∷ s) = let rest = escape s in if num_eq c quote then quote ∷ quote ∷ rest else c ∷ rest

-- 'text' with its quotes doubled, as WHERE_AND and OP write a value.
unfoldable pub quoted : Text → Text
unfolding escape
quoted v = quote ∷ escape v ++ quote ∷ []

-- The argument types that WHERE_AND_ tells apart at compile time.
pub data Value : Type 0 where
  text : Text → Value
  bool : Bool → Value
  number : ℕ → Value

abbrev pub and_then : Text → Text
and_then [] = []
and_then (c ∷ s) = (c ∷ s) ++ codes " and "

unfoldable pub where_and_ : Text → List (Text × Value) → Text
unfolding quoted
where_and_ result [] = result
where_and_ result ((field, text v) ∷ args) =
    where_and_ (if is_empty v then result else and_then result ++ field ++ b'=' ∷ quoted v) args
where_and_ result ((field, bool v) ∷ args) =
    where_and_ (and_then result ++ field ++ b'=' ∷ (if v then codes "true" else codes "false")) args
where_and_ result ((field, number v) ∷ args) =
    where_and_ (and_then result ++ field ++ b'=' ∷ to_string v) args

unfoldable pub where_and : List (Text × Value) → Text
unfolding where_and_
where_and args = where_and_ [] args

pub data SqlComparison : Type 0 where
  eq neq lt lte gt gte : SqlComparison

pub data SqlBinaryOp : Type 0 where
  and or : SqlBinaryOp

unfoldable pub sqlcomps : SqlComparison → Text
sqlcomps eq = codes "="
sqlcomps neq = codes "!="
sqlcomps lt = codes "<"
sqlcomps lte = codes "<="
sqlcomps gt = codes ">"
sqlcomps gte = codes ">="

unfoldable pub bops : SqlBinaryOp → Text
bops and = codes " and "
bops or = codes " or "

-- OP(field, comparison, value)
unfoldable pub op : Text → SqlComparison → Value → Text
unfolding sqlcomps quoted
op f o (text v) = b'(' ∷ f ++ sqlcomps o ++ quoted v ++ b')' ∷ []
op f o (bool v) = b'(' ∷ f ++ sqlcomps o ++ (if v then codes "true" else codes "false") ++ b')' ∷ []
op f o (number v) = b'(' ∷ f ++ sqlcomps o ++ to_string v ++ b')' ∷ []

-- OP(bool, P1, BOP, P2, More...): the operands after the first, each with its operator.
unfoldable pub op_more : Text → List (SqlBinaryOp × Text) → Text
op_more p [] = []
op_more p ((bop, q) ∷ []) = p ++ bops bop ++ q ++ b')' ∷ []
op_more p ((bop, q) ∷ r ∷ more) = p ++ bops bop ++ op_more q (r ∷ more) ++ b')' ∷ []

-- OP(P1, BOP, P2) and OP(P1, BOP, P2, More...)
unfoldable pub op_chain : Text → SqlBinaryOp → Text → List (SqlBinaryOp × Text) → Text
op_chain p bop q [] = b'(' ∷ p ++ bops bop ++ q ++ b')' ∷ []
op_chain p bop q (r ∷ more) = b'(' ∷ p ++ bops bop ++ op_more q (r ∷ more)
