-- ===== src/Prelude/HashMap/Defs.antt =====
-- `HashMap` as a list of entries, with the operations that the program calls.
use Prim.Native.Nat.{ℕ}
use mathlib.Core.Path.{◌≡◌}
use mathlib.Core.Bool.{Bool}
use mathlib.Core.Option.{Option, none, some}
use mathlib.Core.List.{List, [], ◌∷◌, map}
use archforge.Prelude.Tests.{Eq, if◌then◌else◌}
use archforge.Prelude.Lists.{length}

pub record HashMap {ℓ κ} (K : Type ℓ) (V : Type κ) : Type (ℓ ⊔ κ) where
  pub entries : List (K × V)

unfoldable pub new {ℓ κ} : {K : Type ℓ} {V : Type κ} → HashMap K V
new = record { entries = [] }

unfoldable pub keys {ℓ κ} : {K : Type ℓ} {V : Type κ} → HashMap K V → List K
keys m = map (λ e. e.0) m.entries

unfoldable pub len {ℓ κ} : {K : Type ℓ} {V : Type κ} → HashMap K V → ℕ
len m = length m.entries

unfoldable pub change {ℓ κ} : {K : Type ℓ} {V : Type κ} → (V → V) → List (K × V) → List (K × V)
change f [] = []
change f ((j, w) ∷ m) = (j, f w) ∷ change f m

-- A loop over `values_mut`.
unfoldable pub alter {ℓ κ} : {K : Type ℓ} {V : Type κ} → (V → V) → HashMap K V → HashMap K V
unfolding change
alter f m = record { entries = change f m.entries }

module _ {ℓ κ} {K : Type ℓ} {V : Type κ} ⦃e : Eq K⦄ where
  unfoldable pub find : K → List (K × V) → Option V
  find k [] = none
  find k ((j, v) ∷ m) = if e.beq j k then some v else find k m

  unfoldable pub put : K → V → List (K × V) → List (K × V)
  put k v [] = (k, v) ∷ []
  put k v ((j, w) ∷ m) = if e.beq j k then (k, v) ∷ m else (j, w) ∷ put k v m

  unfoldable pub drop_key : K → List (K × V) → List (K × V)
  drop_key k [] = []
  drop_key k ((j, w) ∷ m) = if e.beq j k then drop_key k m else (j, w) ∷ drop_key k m

  -- An entry that is refused takes its key with it.
  unfoldable pub keep : (K → V → Bool) → List (K × V) → List (K × V)
  unfolding drop_key
  keep p [] = []
  keep p ((j, w) ∷ m) = let rest = keep p m in if p j w then (j, w) ∷ rest else drop_key j rest

  unfoldable pub get : K → HashMap K V → Option V
  unfolding find
  get k m = find k m.entries

  unfoldable pub insert : K → V → HashMap K V → HashMap K V
  unfolding put
  insert k v m = record { entries = put k v m.entries }

  unfoldable pub remove : K → HashMap K V → HashMap K V
  unfolding drop_key
  remove k m = record { entries = drop_key k m.entries }

  unfoldable pub retain : (K → V → Bool) → HashMap K V → HashMap K V
  unfolding keep
  retain p m = record { entries = keep p m.entries }

  -- What `retain` leaves of an entry.
  abbrev pub kept : (K → V → Bool) → K → Option V → Option V
  kept p k none = none
  kept p k (some v) = if p k v then some v else none

  -- No key has two entries.
  unfoldable pub Distinct : List (K × V) → Type (ℓ ⊔ κ)
  Distinct [] = Unit
  Distinct ((j, w) ∷ m) = (find j m ≡ none) × Distinct m

  unfoldable pub IsDistinct : HashMap K V → Type (ℓ ⊔ κ)
  unfolding Distinct
  IsDistinct m = Distinct m.entries
