-- ===== src/Orm/Where/Literals.antt =====
-- Quoted values, read back by the rule of the three databases that the service supports
-- (src/framework/StorageClass.h): a quote ends the literal unless a second quote follows, and then the
-- two stand for one. In MySQL a backslash stands for the character behind it, in SQLite and PostgreSQL
-- for itself; the databases are not part of the repository, and this is what they document.
use wlan_cloud_ucentralfms.Common.{
  ℕ, ◌≡◌, refl, sym, ap, ◌∙◌, ◌≢◌, inl, inr, Bool, true, false, ◌&&◌, Option, none, some, [], ◌∷◌,
  ◌++◌, arith, num_eq, if◌then◌else◌, Bool-cases, All, Text,
}
use wlan_cloud_ucentralfms.Orm.Where.{quote, escape}

abbrev push : ℕ → Option (Text × Text) → Option (Text × Text)
push c none = none
push c (some (v, rest)) = some (c ∷ v, rest)

abbrev pub backslash : ℕ
backslash = 92

-- What a literal is read as from behind its opening quote, with the text behind its closing quote;
-- `escapes` says whether a backslash escapes the character behind it.
pub read_literal : Bool → Text → Option (Text × Text)
read_literal escapes [] = none
read_literal escapes (c ∷ []) = if num_eq c quote then some ([], []) else none
read_literal escapes (c ∷ d ∷ s) =
    let shorter = read_literal escapes s in
    let longer = read_literal escapes (d ∷ s) in
    if num_eq c quote
    then (if num_eq d quote then push quote shorter else some ([], d ∷ s))
    else (if escapes && num_eq c backslash then push d shorter else push c longer)

abbrev pub StartsWithQuote : Text → Type 0
StartsWithQuote [] = ⊥
StartsWithQuote (c ∷ s) = c ≡ quote

-- A character that stands for itself, when it is no quote.
abbrev pub IsPlain : Bool → ℕ → Type 0
IsPlain false c = Unit
IsPlain true c = c ≢ backslash

read_literal-close :
    (escapes : Bool) (rest : Text)
    → ¬ StartsWithQuote rest
    → read_literal escapes (quote ∷ rest) ≡ some ([], rest)
unfolding read_literal
read_literal-close escapes [] h = refl
read_literal-close escapes (c ∷ s) h = ground (arith)

read_literal-other :
    (escapes : Bool) (c : ℕ) (s : Text)
    → c ≢ quote
    → IsPlain escapes c
    → read_literal escapes (c ∷ s) ≡ push c (read_literal escapes s)
unfolding read_literal
read_literal-other false c [] h p = ground arith
read_literal-other true c [] h p = ground arith
read_literal-other false c (d ∷ s) h p = ground arith
read_literal-other true c (d ∷ s) h p = ground arith

read_literal-doubled :
    (escapes : Bool) (s : Text)
    → read_literal escapes (quote ∷ quote ∷ s) ≡ push quote (read_literal escapes s)
unfolding read_literal
read_literal-doubled escapes s = refl

-- A value written with its quotes doubled reads back whole, and nothing of it is read as SQL, as long
-- as no quote follows the literal: whatever the value where a backslash stands for itself, and where it
-- escapes (in MySQL) a value without a backslash.
pub read_literal-escape :
    (escapes : Bool) (v rest : Text)
    → All (IsPlain escapes) v
    → ¬ StartsWithQuote rest
    → read_literal escapes (escape v ++ quote ∷ rest) ≡ some (v, rest)
unfolding escape
read_literal-escape escapes [] rest p h = read_literal-close escapes rest h
read_literal-escape escapes (c ∷ v) rest p h = elim (Bool-cases (num_eq c quote)) [
  | inl e ↦
      let same : c ≡ quote = ground arith in
      rw (e, read_literal-doubled, read_literal-escape escapes v rest p.1 h)
        (ap (λ q. some (q ∷ v, rest)) (sym same))
  | inr e ↦ rw e (
      read_literal-other escapes c _ (ground arith) p.0
      ∙ ap (push c) (read_literal-escape escapes v rest p.1 h))
]
