-- ===== src/Common/Maps.antt =====
-- std::map and std::set with text keys: association lists kept in the order of the keys.
use mathlib.Core.Path.{◌≡◌, refl}
use mathlib.Core.Bool.{Bool, true, false}
use mathlib.Core.List.{List, [], ◌∷◌}
use mathlib.Core.Option.{Option, none, some}
use native.Mathlib.Omega.{arith}
use wlan_cloud_ucentralfms.Common.Tests.{if◌then◌else◌}
use wlan_cloud_ucentralfms.Common.Lists.{All}
use wlan_cloud_ucentralfms.Common.Texts.{Text, text_eq, text_eq_iff, text_lt}

abbrev pub Map {ℓ} : Type ℓ → Type ℓ
Map V = List (Text × V)

module _ {ℓ} {V : Type ℓ} where
  unfoldable pub lookup : Text → Map V → Option V
  lookup k [] = none
  lookup k ((j, v) ∷ m) = if text_eq j k then some v else lookup k m

  -- m[k] = v
  unfoldable pub insert : Text → V → Map V → Map V
  insert k v [] = (k, v) ∷ []
  insert k v ((j, w) ∷ m) =
      let rest = (j, w) ∷ insert k v m in
      if text_eq j k then (k, v) ∷ m else if text_lt k j then (k, v) ∷ (j, w) ∷ m else rest

  pub lookup-insert :
      (k j : Text) (v : V) (m : Map V)
      → lookup j (insert k v m) ≡ (if text_eq k j then some v else lookup j m)
  unfolding lookup insert
  lookup-insert k j v [] = refl
  lookup-insert k j v ((i, w) ∷ m) =
      ground (arith, text_eq_iff k j, text_eq_iff i k, text_eq_iff i j, lookup-insert k j v m)

module _ {ℓ} {V : Type ℓ} where
  -- m.erase(k)
  unfoldable pub erase : Text → Map V → Map V
  erase k [] = []
  erase k ((j, v) ∷ m) = let rest = erase k m in if text_eq j k then rest else (j, v) ∷ rest

  pub lookup-erase :
      (k j : Text) (m : Map V) → lookup j (erase k m) ≡ (if text_eq k j then none else lookup j m)
  unfolding lookup erase
  lookup-erase k j [] = ground arith
  lookup-erase k j ((i, w) ∷ m) =
      ground (arith, text_eq_iff k j, text_eq_iff i k, text_eq_iff i j, lookup-erase k j m)

  pub All-insert {κ} :
      (P : Text × V → Type κ) (k : Text) (v : V) (m : Map V)
      → P (k, v)
      → All P m
      → All P (insert k v m)
  unfolding insert
  All-insert P k v [] p h = (p, tt)
  All-insert P k v ((j, w) ∷ m) p h =
      let rest = All-insert P k v m p h.1 in
      let behind : All P (if text_lt k j then (k, v) ∷ (j, w) ∷ m else (j, w) ∷ insert k v m) =
        elim (text_lt k j)
          as (λ b. All P (if b then (k, v) ∷ (j, w) ∷ m else (j, w) ∷ insert k v m)) [
            | true ↦ (p, h)
            | false ↦ (h.0, rest)
          ] in
      elim (text_eq j k)
        as (λ b. All P (
          if b
          then (k, v) ∷ m
          else if text_lt k j
          then (k, v) ∷ (j, w) ∷ m
          else (j, w) ∷ insert k v m)) [ true ↦ (p, h.1) | false ↦ behind ]

  pub All-erase {κ} : (P : Text × V → Type κ) (k : Text) (m : Map V) → All P m → All P (erase k m)
  unfolding erase
  All-erase P k [] h = h
  All-erase P k ((j, w) ∷ m) h =
      let rest = All-erase P k m h.1 in
      elim (text_eq j k) as (λ b. All P (if b then erase k m else (j, w) ∷ erase k m)) [
        | true ↦ rest
        | false ↦ (h.0, rest)
      ]

unfoldable pub set_insert : Text → List Text → List Text
set_insert k [] = k ∷ []
set_insert k (j ∷ s) =
    let rest = j ∷ set_insert k s in
    if text_eq j k then j ∷ s else if text_lt k j then k ∷ j ∷ s else rest

unfoldable pub set_has : Text → List Text → Bool
set_has k [] = false
set_has k (j ∷ s) = if text_eq j k then true else set_has k s

pub set_has-set_insert :
    (k j : Text) (s : List Text)
    → set_has j (set_insert k s) ≡ (if text_eq k j then true else set_has j s)
unfolding set_has set_insert
set_has-set_insert k j [] = refl
set_has-set_insert k j (i ∷ s) =
    ground (arith, text_eq_iff k j, text_eq_iff i k, text_eq_iff i j, set_has-set_insert k j s)
