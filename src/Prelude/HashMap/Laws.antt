-- ===== src/Prelude/HashMap/Laws.antt =====
-- A lookup after each operation, and distinct keys.
use mathlib.Core.Path.{◌≡◌, refl, ap}
use mathlib.Core.Logic.{inl, inr, ◌⊎◌}
use mathlib.Core.Bool.{Bool, true, false}
use mathlib.Core.Option
use mathlib.Core.Option.{none, some}
use mathlib.Core.List.{List, [], ◌∷◌, map}
use native.Mathlib.Omega.{arith}
use archforge.Prelude.Tests.{Eq, if◌then◌else◌, Bool-cases}
use archforge.Prelude.Lists.{elem}
use archforge.Prelude.HashMap.Defs.{
  HashMap, new, keys, change, alter, find, put, drop_key, keep, get, insert, remove, retain, kept,
  Distinct, IsDistinct,
}

module _ {ℓ κ} {K : Type ℓ} {V : Type κ} ⦃e : Eq K⦄ where
  find-put :
      (k j : K) (v : V) (m : List (K × V))
      → find j (put k v m) ≡ (if e.beq k j then some v else find j m)
  unfolding find put
  find-put k j v [] = refl
  find-put k j v ((i, w) ∷ m) =
      ground (arith, e.beq_iff k j, e.beq_iff i k, e.beq_iff i j, find-put k j v m)

  find-drop_key :
      (k j : K) (m : List (K × V)) → find j (drop_key k m) ≡ (if e.beq k j then none else find j m)
  unfolding find drop_key
  find-drop_key k j [] = ground arith
  find-drop_key k j ((i, w) ∷ m) =
      ground (arith, e.beq_iff k j, e.beq_iff i k, e.beq_iff i j, find-drop_key k j m)

  find-keep :
      (p : K → V → Bool) (j : K) (m : List (K × V)) → find j (keep p m) ≡ kept p j (find j m)
  unfolding find keep
  find-keep p j [] = refl
  find-keep p j ((i, w) ∷ m) = elim (Bool-cases (e.beq i j)) [
    | inl same ↦
        let eq : i ≡ j = (e.beq_iff i j).0 same in
        ground (arith, find-keep p j m, find-drop_key i j (keep p m), same, eq, ap (λ k. p k w) eq)
    | inr other ↦ ground (arith, find-keep p j m, find-drop_key i j (keep p m), other)
  ]

  find-change :
      (f : V → V) (j : K) (m : List (K × V)) → find j (change f m) ≡ Option.map f (find j m)
  unfolding find change
  find-change f j [] = refl
  find-change f j ((i, w) ∷ m) = ground (arith, find-change f j m)

  put-Distinct : (k : K) (v : V) (m : List (K × V)) → Distinct m → Distinct (put k v m)
  unfolding Distinct put find
  put-Distinct k v [] d = (refl, tt)
  put-Distinct k v ((j, w) ∷ m) d =
      ground (arith, e.beq_iff j k, e.beq_iff k j, find-put k j v m, put-Distinct k v m d.1)

  drop_key-Distinct : (k : K) (m : List (K × V)) → Distinct m → Distinct (drop_key k m)
  unfolding Distinct drop_key
  drop_key-Distinct k [] d = tt
  drop_key-Distinct k ((j, w) ∷ m) d =
      ground (arith, find-drop_key k j m, drop_key-Distinct k m d.1)

  keep-Distinct : (p : K → V → Bool) (m : List (K × V)) → Distinct m → Distinct (keep p m)
  unfolding Distinct keep
  keep-Distinct p [] d = tt
  keep-Distinct p ((j, w) ∷ m) d = ground (
    arith,
    find-keep p j m,
    keep-Distinct p m d.1,
    drop_key-Distinct j (keep p m) (keep-Distinct p m d.1),
  )

  change-Distinct : (f : V → V) (m : List (K × V)) → Distinct m → Distinct (change f m)
  unfolding Distinct change
  change-Distinct f [] d = tt
  change-Distinct f ((j, w) ∷ m) d = ground (arith, find-change f j m, change-Distinct f m d.1)

  pub get-new : (j : K) → get j (new {K = K} {V = V}) ≡ none
  unfolding get new
  get-new j = refl

  pub get-insert :
      (k j : K) (v : V) (m : HashMap K V)
      → get j (insert k v m) ≡ (if e.beq k j then some v else get j m)
  unfolding get insert
  get-insert k j v m = find-put k j v m.entries

  -- What is found after an insertion is the new entry, or was there before.
  pub get-insert_inv :
      (k j : K) (v w : V) (m : HashMap K V)
      → get j (insert k v m) ≡ some w
      → ((k ≡ j) × (v ≡ w)) ⊎ ((e.beq k j ≡ false) × (get j m ≡ some w))
  get-insert_inv k j v w m h = ground (arith, get-insert k j v m, e.beq_iff k j)

  pub get-remove :
      (k j : K) (m : HashMap K V) → get j (remove k m) ≡ (if e.beq k j then none else get j m)
  unfolding get remove
  get-remove k j m = find-drop_key k j m.entries

  pub get-retain :
      (p : K → V → Bool) (j : K) (m : HashMap K V) → get j (retain p m) ≡ kept p j (get j m)
  unfolding get retain
  get-retain p j m = find-keep p j m.entries

  pub get-alter : (f : V → V) (j : K) (m : HashMap K V) → get j (alter f m) ≡ Option.map f (get j m)
  unfolding get alter
  get-alter f j m = find-change f j m.entries

  pub insert-IsDistinct :
      (k : K) (v : V) (m : HashMap K V) → IsDistinct m → IsDistinct (insert k v m)
  unfolding IsDistinct insert
  insert-IsDistinct k v m = put-Distinct k v m.entries

  pub remove-IsDistinct : (k : K) (m : HashMap K V) → IsDistinct m → IsDistinct (remove k m)
  unfolding IsDistinct remove
  remove-IsDistinct k m = drop_key-Distinct k m.entries

  pub retain-IsDistinct :
      (p : K → V → Bool) (m : HashMap K V) → IsDistinct m → IsDistinct (retain p m)
  unfolding IsDistinct retain
  retain-IsDistinct p m = keep-Distinct p m.entries

  pub alter-IsDistinct : (f : V → V) (m : HashMap K V) → IsDistinct m → IsDistinct (alter f m)
  unfolding IsDistinct alter
  alter-IsDistinct f m = change-Distinct f m.entries

  -- A loop over the keys meets every key that a lookup finds.
  mem-keys :
      (k : K) (m : List (K × V)) (v : V) → find k m ≡ some v → elem k (map (λ e. e.0) m) ≡ true
  unfolding find elem
  mem-keys k [] v h = cc
  mem-keys k ((j, w) ∷ m) v h = ground (arith, mem-keys k m v)

  pub elem-keys : (k : K) (m : HashMap K V) (v : V) → get k m ≡ some v → elem k (keys m) ≡ true
  unfolding get keys
  elem-keys k m v h = mem-keys k m.entries v h

pub new-IsDistinct {ℓ κ} : (K : Type ℓ) (V : Type κ) ⦃e : Eq K⦄ → IsDistinct (new {K = K} {V = V})
unfolding IsDistinct new
new-IsDistinct K V = tt

pub ruleset map_laws = (get-new, get-insert, get-remove, get-retain, get-alter)
