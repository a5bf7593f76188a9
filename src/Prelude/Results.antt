-- ===== src/Prelude/Results.antt =====
-- Results with an error text, and maps as association lists keyed by text.
use Prim.Native.String.{String}
use mathlib.Core.Path.{◌≡◌, refl}
use mathlib.Core.Logic.{◌⊎◌, inl, inr}
use mathlib.Core.Option.{Option, none, some}
use mathlib.Core.List.{List, [], ◌∷◌}
use native.Mathlib.Omega.{arith}
use text.Mathlib.TextEquality.{eq_iff}
use jec.Prelude.Tests.{if◌then◌else◌}
use jec.Prelude.Text.{str_eq}

-- `(value, nil)` or `(nil, err)`, the error by its text.
pub data Result {ℓ} (A : Type ℓ) : Type ℓ where
  ok : A → Result A
  err : String → Result A

pub Result-cases {ℓ} :
    {A : Type ℓ} (r : Result A) → ((a : A) × (r ≡ ok a)) ⊎ ((e : String) × (r ≡ err e))
Result-cases (ok a) = inl (a, refl)
Result-cases (err e) = inr (e, refl)

-- A map from texts: an association list, where the first entry of a name counts.
module _ {ℓ} {A : Type ℓ} where
  unfoldable pub lookup : String → List (String × A) → Option A
  lookup name [] = none
  lookup name ((n, a) ∷ rest) = if str_eq n name then some a else lookup name rest

  -- `m[name] = b`: in place, or a new entry.
  unfoldable pub insert : String → A → List (String × A) → List (String × A)
  insert name b [] = (name, b) ∷ []
  insert name b ((n, a) ∷ rest) =
      let behind = insert name b rest in if str_eq n name then (name, b) ∷ rest else (n, a) ∷ behind

  unfoldable pub delete : String → List (String × A) → List (String × A)
  delete name [] = []
  delete name ((n, a) ∷ rest) =
      let behind = delete name rest in if str_eq n name then behind else (n, a) ∷ behind

  pub lookup-insert :
      (name other : String) (b : A) (m : List (String × A))
      → lookup other (insert name b m) ≡ (if str_eq name other then some b else lookup other m)
  unfolding lookup insert
  lookup-insert name other b [] = refl
  lookup-insert name other b ((n, a) ∷ rest) =
      ground
        (arith, lookup-insert name other b rest, eq_iff n name, eq_iff n other, eq_iff name other)

  pub lookup-delete :
      (name other : String) (m : List (String × A))
      → lookup other (delete name m) ≡ (if str_eq name other then none else lookup other m)
  unfolding lookup delete
  lookup-delete name other [] = ground arith
  lookup-delete name other ((n, a) ∷ rest) =
      ground
        (arith, lookup-delete name other rest, eq_iff n name, eq_iff n other, eq_iff name other)
