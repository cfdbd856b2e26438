-- ===== src/RestFramework/Parameters/Laws.antt =====
-- The numbers of a query, and the exceptions of a number that is too large.
use wlan_cloud_ucentralfms.Common.{
  ℕ, zero, suc, ◌+◌, ◌/◌, ◌%◌, ◌^◌, ◌≤◌, ◌<◌, ◌≡◌, refl, inl, inr, true, false, none, some, [], ◌∷◌,
  arith, ltb, if_true, if_false, Bool-cases, Option-cases, all_of, Text, codes, is_empty,
  decimal_digits, to_string, decimal_value, decimal_value-to_string,
}
use wlan_cloud_ucentralfms.Poco.{Poco}
use wlan_cloud_ucentralfms.Service.{word64}
use wlan_cloud_ucentralfms.RestFramework.Parameters.{
  Parameters, find_parameter, is_digit, is_number, stoull, get_parameter_number, init_query_block,
}

decimal_digits_all :
    (fuel n : ℕ) (acc : Text)
    → all_of is_digit acc ≡ true
    → all_of is_digit (decimal_digits fuel n acc) ≡ true
unfolding decimal_digits
decimal_digits_all zero n acc h = h
decimal_digits_all (suc fuel) n acc h =
    let digit : all_of is_digit ((n % 10 + b'0') ∷ acc) ≡ true = ground (arith, h) in
    elim (Bool-cases (ltb n 10)) [
      | inl t ↦ rw t digit
      | inr f ↦ rw f (decimal_digits_all fuel (n / 10) ((n % 10 + b'0') ∷ acc) digit)
    ]

decimal_digits_full :
    (fuel n c : ℕ) (acc : Text) → is_empty (decimal_digits fuel n (c ∷ acc)) ≡ false
unfolding decimal_digits
decimal_digits_full zero n c acc = refl
decimal_digits_full (suc fuel) n c acc = elim (Bool-cases (ltb n 10)) [
  | inl t ↦ rw t refl
  | inr f ↦ rw f (decimal_digits_full fuel (n / 10) (n % 10 + b'0') (c ∷ acc))
]

to_string_full : (n : ℕ) → is_empty (to_string n) ≡ false
unfolding to_string decimal_digits
to_string_full n = elim (Bool-cases (ltb n 10)) [
  | inl t ↦ rw t refl
  | inr f ↦ rw f (decimal_digits_full 19 (n / 10) (n % 10 + b'0') [])
]

is_number-to_string : (n : ℕ) → is_number (to_string n) ≡ true
unfolding is_number to_string
is_number-to_string n = rw (to_string_full n) (decimal_digits_all 20 n [] refl)

-- A number that is printed into a query is read from it, when it has at most 64 bits.
pub get_parameter_number-to_string :
    (name : Text) (default n : ℕ) (ps : Parameters)
    → find_parameter name ps ≡ some (to_string n)
    → n < 2 ^ 64
    → get_parameter_number name default ps ≡ some n
unfolding get_parameter_number stoull
get_parameter_number-to_string name default n ps found small =
    rw (found, is_number-to_string n, decimal_value-to_string n small)
      (if_true (ltb n word64) _ _ (ground arith))

stoull-none : (s : Text) → word64 ≤ decimal_value 0 s → stoull s ≡ none
unfolding stoull
stoull-none s large = if_false (ltb (decimal_value 0 s) word64) _ _ (ground arith)

-- GetParameter throws for decimal digits that stand for a number of more than 64 bits.
pub get_parameter_number-large :
    (name : Text) (default : ℕ) (ps : Parameters) (v : Text)
    → find_parameter name ps ≡ some v
    → is_number v ≡ true
    → word64 ≤ decimal_value 0 v
    → get_parameter_number name default ps ≡ none
unfolding get_parameter_number
get_parameter_number-large name default ps v found digits large =
    rw (found, digits) (stoull-none v large)

-- InitQueryBlock succeeds when none of its five numbers throws, and throws when its limit does.
pub init_query_block-large :
    (poco : Poco) (ps : Parameters)
    → get_parameter_number (codes "limit") 100 ps ≡ none
    → init_query_block poco ps ≡ none
unfolding init_query_block
init_query_block-large poco ps large =
    elim (Option-cases (get_parameter_number (codes "startDate") 0 ps)) [
      | inl e ↦ rw (e, init_query_block) refl
      | inr (start_date, e) ↦
          rw (e, init_query_block)
            (elim (Option-cases (get_parameter_number (codes "endDate") 0 ps)) [
              | inl f ↦ rw (f, init_query_block) refl
              | inr (end_date, f) ↦
                  rw (f, init_query_block)
                    (elim (Option-cases (get_parameter_number (codes "offset") 0 ps)) [
                      | inl g ↦ rw (g, init_query_block) refl
                      | inr (offset, g) ↦ rw (g, large, init_query_block) refl
                    ])
            ])
    ]
