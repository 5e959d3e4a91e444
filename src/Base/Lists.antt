-- ===== src/Base/Lists.antt =====
-- Lists measured by native numbers, and predicates on lists that compute.
use Prim.Native.Nat.{ℕ, zero, suc, ◌+◌}
use mathlib.Core.Path.{◌≡◌, refl, sym, subst}
use mathlib.Core.Logic.{◌⊎◌, inl, inr, ◌↔◌}
use singlecloud.Base.Tests.{if◌then◌else◌}
use mathlib.Core.Bool.{Bool, true, false, ◌||◌}
use mathlib.Core.List.{List, [], ◌∷◌, ◌++◌}
use native.Mathlib.Omega.{arith}

module _ {ℓ} {A : Type ℓ} where
  abbrev pub length : List A → ℕ
  length [] = 0
  length (x ∷ xs) = suc (length xs)

  abbrev pub take : ℕ → List A → List A
  take zero xs = []
  take (suc n) [] = []
  take (suc n) (x ∷ xs) = x ∷ take n xs

  abbrev pub any : (A → Bool) → List A → Bool
  any p [] = false
  any p (x ∷ xs) = p x || any p xs

  pub length-append : (xs ys : List A) → length (xs ++ ys) ≡ length xs + length ys
  length-append [] ys = omega arith
  length-append (x ∷ xs) ys = omega (arith, length-append xs ys)

module _ {ℓ κ} {A : Type ℓ} where
  abbrev pub All : (A → Type κ) → List A → Type κ
  All P [] = Unit
  All P (x ∷ xs) = P x × All P xs

module _ {A : Type 0} where
  abbrev pub Mem : A → List A → Type 0
  Mem x [] = ⊥
  Mem x (y ∷ ys) = (x ≡ y) ⊎ Mem x ys

  -- Membership in a list that a loop kept some elements of.
  pub Mem-if :
      (P : A → Type 0) (x y : A) (b : Bool) (ys rest : List A)
      → (b ≡ true ↔ P y)
      → (Mem x rest ↔ (Mem x ys × P x))
      → Mem x (if b then y ∷ rest else rest) ↔ (Mem x (y ∷ ys) × P x)
  Mem-if P x y true ys rest h ih = (forth, back)
    where
      forth : Mem x (y ∷ rest) → Mem x (y ∷ ys) × P x
      forth (inl e) = (inl e, subst P (sym e) (h.0 refl))
      forth (inr i) = (inr (ih.0 i).0, (ih.0 i).1)

      back : Mem x (y ∷ ys) × P x → Mem x (y ∷ rest)
      back (inl e, p) = inl e
      back (inr i, p) = inr (ih.1 (i, p))
  Mem-if P x y false ys rest h ih = (forth, back)
    where
      forth : Mem x rest → Mem x (y ∷ ys) × P x
      forth i = (inr (ih.0 i).0, (ih.0 i).1)

      back : Mem x (y ∷ ys) × P x → Mem x rest
      back (inl e, p) = absurd (no (h.1 (subst P e p)))
        where
          no : false ≡ true → ⊥
          no k = cc
      back (inr i, p) = ih.1 (i, p)
