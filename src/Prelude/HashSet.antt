-- ===== src/Prelude/HashSet.antt =====
-- `std::collections::HashSet` as a list of members.
use Prim.Native.Nat.{ℕ, suc, ◌≤◌}
use mathlib.Core.Path.{◌≡◌, refl}
use mathlib.Core.Bool.{Bool, true, false}
use mathlib.Core.List.{List, [], ◌∷◌}
use native.Mathlib.Omega.{arith}
use archforge.Prelude.Tests.{Eq, if◌then◌else◌}
use archforge.Prelude.Lists.{length, elem}

pub record HashSet {ℓ} (A : Type ℓ) : Type ℓ where
  pub members : List A

unfoldable pub new {ℓ} : {A : Type ℓ} → HashSet A
new = record { members = [] }

unfoldable pub len {ℓ} : {A : Type ℓ} → HashSet A → ℕ
len s = length s.members

module _ {ℓ} {A : Type ℓ} ⦃e : Eq A⦄ where
  unfoldable pub drop_all : A → List A → List A
  drop_all a [] = []
  drop_all a (x ∷ xs) = if e.beq x a then drop_all a xs else x ∷ drop_all a xs

  unfoldable pub contains : A → HashSet A → Bool
  unfolding elem
  contains a s = elem a s.members

  unfoldable pub insert : A → HashSet A → HashSet A
  unfolding contains
  insert a s = if contains a s then s else record { members = a ∷ s.members }

  unfoldable pub remove : A → HashSet A → HashSet A
  unfolding drop_all
  remove a s = record { members = drop_all a s.members }

  elem-drop_all :
      (a b : A) (xs : List A) → elem b (drop_all a xs) ≡ (if e.beq a b then false else elem b xs)
  unfolding elem drop_all
  elem-drop_all a b [] = ground arith
  elem-drop_all a b (x ∷ xs) =
      ground (arith, e.beq_iff a b, e.beq_iff x a, e.beq_iff x b, elem-drop_all a b xs)

  pub contains-new : (a : A) → contains a new ≡ false
  unfolding contains new
  contains-new a = refl

  pub contains-insert :
      (a b : A) (s : HashSet A)
      → contains b (insert a s) ≡ (if e.beq a b then true else contains b s)
  unfolding contains insert
  contains-insert a b s = ground (arith, e.beq_iff a b)

  pub contains-remove :
      (a b : A) (s : HashSet A)
      → contains b (remove a s) ≡ (if e.beq a b then false else contains b s)
  unfolding contains remove
  contains-remove a b s = elem-drop_all a b s.members

  pub len-insert : (a : A) (s : HashSet A) → contains a s ≡ false → len (insert a s) ≡ suc (len s)
  unfolding len insert
  len-insert a s h = ground arith

  length-drop_all-le : (a : A) (xs : List A) → length (drop_all a xs) ≤ length xs
  unfolding drop_all
  length-drop_all-le a [] = omega arith
  length-drop_all-le a (x ∷ xs) = ground (arith, length-drop_all-le a xs)

  pub len-remove-le : (a : A) (s : HashSet A) → len (remove a s) ≤ len s
  unfolding len remove
  len-remove-le a s = length-drop_all-le a s.members

  -- A set holds each member once.
  unfoldable pub Distinct : List A → Type 0
  Distinct [] = Unit
  Distinct (x ∷ xs) = (elem x xs ≡ false) × Distinct xs

  drop_all-Distinct : (a : A) (xs : List A) → Distinct xs → Distinct (drop_all a xs)
  unfolding Distinct drop_all
  drop_all-Distinct a [] d = tt
  drop_all-Distinct a (x ∷ xs) d = ground (arith, elem-drop_all a x xs, drop_all-Distinct a xs d.1)

  unfoldable pub IsDistinct : HashSet A → Type 0
  unfolding Distinct
  IsDistinct s = Distinct s.members

  pub insert-IsDistinct : (a : A) (s : HashSet A) → IsDistinct s → IsDistinct (insert a s)
  unfolding IsDistinct insert
  insert-IsDistinct a s d = ground arith

  pub remove-IsDistinct : (a : A) (s : HashSet A) → IsDistinct s → IsDistinct (remove a s)
  unfolding IsDistinct remove
  remove-IsDistinct a s = drop_all-Distinct a s.members

pub new-IsDistinct {ℓ} : (A : Type ℓ) ⦃e : Eq A⦄ → IsDistinct (new {A = A})
unfolding IsDistinct new
new-IsDistinct A = tt

pub len-new {ℓ} : (A : Type ℓ) → len (new {A = A}) ≡ 0
unfolding len new
len-new A = refl

pub ruleset set_laws = (contains-new, contains-insert, contains-remove)
