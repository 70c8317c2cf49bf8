-- ===== src/Prelude/Sort.antt =====
-- A stable sort of numbers, `slice::sort_by_key` at the identity key.
use Prim.Native.Nat.{ℕ, ◌≤◌}
use mathlib.Core.Path.{◌≡◌, refl, ◌∙◌}
use mathlib.Core.List.{List, [], ◌∷◌, Perm, Permᴰ}
use mathlib.Core.List.Perm
use native.Mathlib.Omega.{arith}
use mathlib.Core.Logic.{∥∥₁_elim}
use archforge.Prelude.Tests.{leb, if◌then◌else◌}

unfoldable pub place : ℕ → List ℕ → List ℕ
place x [] = x ∷ []
place x (y ∷ ys) = if leb x y then x ∷ y ∷ ys else y ∷ place x ys

unfoldable pub sort : List ℕ → List ℕ
unfolding place
sort [] = []
sort (x ∷ xs) = place x (sort xs)

-- Each item is at most the one behind it.
abbrev pub IsAscending : List ℕ → Type 0
IsAscending [] = Unit {0}
IsAscending (x ∷ []) = Unit {0}
IsAscending (x ∷ y ∷ ys) = (x ≤ y) × IsAscending (y ∷ ys)

place-IsAscending : (x : ℕ) (ys : List ℕ) → IsAscending ys → IsAscending (place x ys)
unfolding place
place-IsAscending x [] h = tt
place-IsAscending x (y ∷ []) h = ground arith
place-IsAscending x (y ∷ z ∷ ys) h = ground (arith, place-IsAscending x (z ∷ ys) h.1)

pub sort-IsAscending : (xs : List ℕ) → IsAscending (sort xs)
unfolding sort
sort-IsAscending [] = tt
sort-IsAscending (x ∷ xs) = place-IsAscending x (sort xs) (sort-IsAscending xs)

place-perm : (x : ℕ) (ys : List ℕ) → Perm (place x ys) (x ∷ ys)
unfolding place
place-perm x [] = Perm.refl (x ∷ [])
place-perm x (y ∷ ys) =
    ground
      (arith, Perm.refl (x ∷ y ∷ ys), Perm.trans (Perm.cons y (place-perm x ys)) (Perm.swap x y ys))

pub sort-perm : (xs : List ℕ) → Perm (sort xs) xs
unfolding sort
sort-perm [] = Perm.nil
sort-perm (x ∷ xs) = Perm.trans (place-perm x (sort xs)) (Perm.cons x (sort-perm xs))

place_comm : (x y : ℕ) (zs : List ℕ) → place x (place y zs) ≡ place y (place x zs)
unfolding place
place_comm x y [] = ground arith
place_comm x y (z ∷ zs) = ground (arith, place_comm x y zs)

List-set : IsSet (List ℕ)
List-set = hlevel

sort-Permᴰ : {xs ys : List ℕ} → Permᴰ xs ys → sort xs ≡ sort ys
unfolding sort
sort-Permᴰ Permᴰ.nil = refl
sort-Permᴰ (Permᴰ.cons {a = x} {b = y} e p) = cc (sort-Permᴰ p)
sort-Permᴰ (Permᴰ.swap {a = x} {b = y} {l = l} e f) = rw (← e, ← f) (place_comm x y (sort l))
sort-Permᴰ (Permᴰ.trans p q) = sort-Permᴰ p ∙ sort-Permᴰ q

-- Two lists of the same items are sorted into the same list.
pub sort-eq_of_perm : {xs ys : List ℕ} → Perm xs ys → sort xs ≡ sort ys
sort-eq_of_perm p = ∥∥₁_elim p (List-set _ _) sort-Permᴰ
