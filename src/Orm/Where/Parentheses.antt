-- ===== src/Orm/Where/Parentheses.antt =====
-- The parentheses of the clauses that OP builds.
use wlan_cloud_ucentralfms.Common.{
  ℕ, ◌+◌, ◌≡◌, refl, List, [], ◌∷◌, ◌++◌, arith, num_eq, if◌then◌else◌, length, Text,
}
use wlan_cloud_ucentralfms.Orm.Where.{SqlBinaryOp, bops, op_more, op_chain, and, or}

pub count : ℕ → Text → ℕ
count b [] = 0
count b (c ∷ s) = let rest = count b s in if num_eq c b then rest + 1 else rest

count-append : (b : ℕ) (s t : Text) → count b (s ++ t) ≡ count b s + count b t
unfolding count
count-append b [] t = omega arith
count-append b (c ∷ s) t = ground (arith, count-append b s t)

-- Occurrences in the operands of a chain.
pub count_operands : ℕ → List (SqlBinaryOp × Text) → ℕ
unfolding count
count_operands b [] = 0
count_operands b ((bop, q) ∷ more) = count b q + count_operands b more

bops-parentheses : (bop : SqlBinaryOp) → (count b'(' (bops bop) ≡ 0) × (count b')' (bops bop) ≡ 0)
unfolding count bops
bops-parentheses and = (refl, refl)
bops-parentheses or = (refl, refl)

op_more-cons :
    (p q : Text) (bop : SqlBinaryOp) (r : SqlBinaryOp × Text) (more : List (SqlBinaryOp × Text))
    → op_more p ((bop, q) ∷ r ∷ more) ≡ p ++ bops bop ++ op_more q (r ∷ more) ++ b')' ∷ []
unfolding op_more
op_more-cons p q bop r more = refl

count_parts :
    (b : ℕ) (p x q : Text)
    → count b (p ++ x ++ q ++ b')' ∷ []) ≡ count b p + count b x + count b q + count b (b')' ∷ [])
count_parts b p x q =
    omega (
      arith,
      count-append b (p ++ x ++ q) (b')' ∷ []),
      count-append b (p ++ x) q,
      count-append b p x,
    )

closing : (count b'(' (b')' ∷ []) ≡ 0) × (count b')' (b')' ∷ []) ≡ 1)
unfolding count
closing = (refl, refl)

count_front :
    (b : ℕ) (p x q : Text)
    → count b (b'(' ∷ p ++ x ++ q) ≡ count b (b'(' ∷ []) + count b p + count b x + count b q
count_front b p x q = omega (
  arith,
  count-append b (b'(' ∷ p ++ x) q,
  count-append b (b'(' ∷ p) x,
  count-append b (b'(' ∷ []) p,
)

opening : (count b'(' (b'(' ∷ []) ≡ 1) × (count b')' (b'(' ∷ []) ≡ 0)
unfolding count
opening = (refl, refl)

op_more-parentheses :
    (p : Text) (r : SqlBinaryOp × Text) (more : List (SqlBinaryOp × Text))
    → (count b'(' (op_more p (r ∷ more)) ≡ count b'(' p + count_operands b'(' (r ∷ more))
      × (count b')' (op_more p (r ∷ more))
          ≡ count b')' p + count_operands b')' (r ∷ more) + length (r ∷ more))
unfolding count_operands
op_more-parentheses p (bop, q) [] =
    unfold op_more in
    (
      omega (arith, count_parts b'(' p (bops bop) q, bops-parentheses bop, closing),
      omega (arith, count_parts b')' p (bops bop) q, bops-parentheses bop, closing),
    )
op_more-parentheses p (bop, q) (r ∷ more) =
    let rest = op_more-parentheses q r more in
    rw op_more-cons (
      omega (
        arith,
        count_parts b'(' p (bops bop) (op_more q (r ∷ more)),
        bops-parentheses bop,
        closing,
        rest.0,
      ),
      omega (
        arith,
        count_parts b')' p (bops bop) (op_more q (r ∷ more)),
        bops-parentheses bop,
        closing,
        rest.1,
      ),
    )

-- A chain of OP over three or more operands opens one parenthesis of its own and closes one for each
-- operand behind the second: only with three operands do they balance.
pub op_chain-parentheses :
    (p : Text) (bop : SqlBinaryOp) (q : Text) (r : SqlBinaryOp × Text)
    (more : List (SqlBinaryOp × Text))
    → (count b'(' (op_chain p bop q (r ∷ more))
        ≡ count b'(' p + count_operands b'(' ((bop, q) ∷ r ∷ more) + 1)
      × (count b')' (op_chain p bop q (r ∷ more))
          ≡ count b')' p + count_operands b')' ((bop, q) ∷ r ∷ more) + length (r ∷ more))
unfolding op_chain count_operands
op_chain-parentheses p bop q r more =
    let rest = op_more-parentheses q r more in
    let opened = count_front b'(' p (bops bop) (op_more q (r ∷ more)) in
    let closed = count_front b')' p (bops bop) (op_more q (r ∷ more)) in
    (
      omega (arith, opened, opening, bops-parentheses bop, rest.0),
      omega (arith, closed, opening, bops-parentheses bop, rest.1),
    )
