-- ===== src/Prelude/Map.antt =====
-- A finite map (std's HashMap) as an association list, over any key with Boolean equality. The
-- order of the entries stands for the iteration order, which the source leaves unspecified.
pub mod Sum
use Prim.Native.Nat.{ℕ, suc}
use mathlib.Core.Path.{◌≡◌, refl}
use mathlib.Core.Bool.{true}
use mathlib.Core.Option.{Option, none, some}
use mathlib.Core.List.{List, [], ◌∷◌}
use native.Mathlib.Omega.{arith}
use aegis_oms_rs.Prelude.Tests.{if◌then◌else◌}
use aegis_oms_rs.Prelude.Eq.{Eq, ◌==◌, ==_iff}

abbrev pub HashMap : Type 0 → Type 0 → Type 0
HashMap K V = List (K × V)

module _ {ℓ} {A : Type ℓ} where
  abbrev pub length : List A → ℕ
  length [] = 0
  length (x ∷ xs) = suc (length xs)

module _ {K : Type 0} {V : Type 0} where
  abbrev pub values : HashMap K V → List V
  values [] = []
  values ((k, v) ∷ m) = v ∷ values m

module _ {K : Type 0} ⦃e : Eq K⦄ {V : Type 0} where
  abbrev pub get : K → HashMap K V → Option V
  get k [] = none
  get k ((j, v) ∷ m) = if j == k then some v else get k m

  abbrev pub insert : K → V → HashMap K V → HashMap K V
  insert k v [] = (k, v) ∷ []
  insert k v ((j, w) ∷ m) = if j == k then (j, v) ∷ m else (j, w) ∷ insert k v m

  -- The map without the key: a map holds a key once, and `remove` drops every entry of the key.
  abbrev pub remove : K → HashMap K V → HashMap K V
  remove k [] = []
  remove k ((j, w) ∷ m) = if j == k then remove k m else (j, w) ∷ remove k m

  pub get-insert :
      (k j : K) (v : V) (m : HashMap K V)
      → get j (insert k v m) ≡ (if k == j then some v else get j m)
  get-insert k j v [] = refl
  get-insert k j v ((i, w) ∷ m) =
      ground (arith, ==_iff k j, ==_iff i k, ==_iff i j, get-insert k j v m)

  pub get-remove :
      (k j : K) (m : HashMap K V) → get j (remove k m) ≡ (if k == j then none else get j m)
  get-remove k j [] = ground (arith, ==_iff k j)
  get-remove k j ((i, w) ∷ m) = ground (arith, ==_iff k j, ==_iff i k, ==_iff i j, get-remove k j m)

  pub get-insert_self : (k : K) (v : V) (m : HashMap K V) → get k (insert k v m) ≡ some v
  get-insert_self k v m = ground (arith, get-insert k k v m, ==_iff k k)

  -- Writing back what was found changes nothing.
  pub insert_found : (k : K) (v : V) (m : HashMap K V) → get k m ≡ some v → insert k v m ≡ m
  insert_found k v [] h = absurd (ground arith)
  insert_found k v ((j, w) ∷ m) h = ground (arith, insert_found k v m)
