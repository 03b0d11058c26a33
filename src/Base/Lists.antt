-- ===== src/Base/Lists.antt =====
-- Lists measured and indexed by native numbers, under the library's names.
use Prim.Native.Nat.{ℕ, zero, suc, ◌+◌}
use mathlib.Core.Path.{◌≡◌}
use mathlib.Core.List.{List, [], ◌∷◌, ◌++◌}
use mathlib.Core.Logic.{◌↔◌, ◌⊎◌, inl, inr}
use mathlib.Core.Option.{Option, none, some}
use native.Mathlib.Omega.{arith}

module _ {ℓ} {A : Type ℓ} where
  abbrev pub length : List A → ℕ
  length [] = 0
  length (x ∷ xs) = suc (length xs)

  abbrev pub get_elem? : List A → ℕ → Option A
  get_elem? [] i = none
  get_elem? (x ∷ xs) zero = some x
  get_elem? (x ∷ xs) (suc i) = get_elem? xs i

  abbrev pub take : ℕ → List A → List A
  take zero xs = []
  take (suc n) [] = []
  take (suc n) (x ∷ xs) = x ∷ take n xs

  pub length-append : (xs ys : List A) → length (xs ++ ys) ≡ length xs + length ys
  length-append [] ys = omega arith
  length-append (x ∷ xs) ys = omega (arith, length-append xs ys)

  -- A predicate of every element.
  abbrev pub All {κ} : (A → Type κ) → List A → Type κ
  All P [] = Unit
  All P (x ∷ xs) = P x × All P xs

module _ {ℓ} {A : Type ℓ} (P : A → Type 0) where
  -- A predicate of some element.
  abbrev pub Any : List A → Type 0
  Any [] = ⊥
  Any (x ∷ xs) = P x ⊎ Any xs

  pub Any-append : (xs ys : List A) → Any (xs ++ ys) ↔ (Any xs ⊎ Any ys)
  Any-append [] ys = ((λ h. inr h), (elim [ inl h ↦ absurd h | inr h ↦ h ]))
  Any-append (x ∷ xs) ys = (
    elim [
      | inl h ↦ inl (inl h)
      | inr h ↦ elim ((Any-append xs ys).0 h) [ inl k ↦ inl (inr k) | inr k ↦ inr k ]
    ],
    elim [
      | inl h ↦ elim h [ inl k ↦ inl k | inr k ↦ inr ((Any-append xs ys).1 (inl k)) ]
      | inr h ↦ inr ((Any-append xs ys).1 (inr h))
    ],
  )
