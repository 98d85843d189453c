-- ===== src/Prelude/Map/Sum.antt =====
-- Maps that hold a key once, and sums over their values.
use mathlib.Core.Path.{◌≡◌, refl}
use mathlib.Core.Logic.{inl, inr}
use mathlib.Core.Option.{none, some}
use mathlib.Core.List.{[], ◌∷◌}
use native.Mathlib.Omega.{arith}
use aegis_oms_rs.Prelude.Tests.{Bool-cases}
use aegis_oms_rs.Prelude.Int.{ℤ, pos, ◌+ℤ◌, ◌≤ℤ◌, ◌<ℤ◌, int_laws}
use aegis_oms_rs.Prelude.Eq.{Eq, ◌==◌, ==_iff}
use aegis_oms_rs.Prelude.Map.{HashMap, get, insert, remove, get-insert, get-remove}

module _ {K : Type 0} ⦃e : Eq K⦄ {V : Type 0} where
  -- No key stands twice.
  abbrev pub IsDistinct : HashMap K V → Type 0
  IsDistinct [] = Unit {0}
  IsDistinct ((k, v) ∷ m) = (get k m ≡ none) × IsDistinct m

  pub insert-IsDistinct :
      (k : K) (v : V) (m : HashMap K V) → IsDistinct m → IsDistinct (insert k v m)
  insert-IsDistinct k v [] d = (refl, tt)
  insert-IsDistinct k v ((j, w) ∷ m) d =
      ground (arith, insert-IsDistinct k v m d.1, get-insert k j v m, ==_iff j k, ==_iff k j)

  pub remove-IsDistinct : (k : K) (m : HashMap K V) → IsDistinct m → IsDistinct (remove k m)
  remove-IsDistinct k [] d = tt
  remove-IsDistinct k ((j, w) ∷ m) d =
      ground (arith, remove-IsDistinct k m d.1, get-remove k j m, ==_iff j k, ==_iff k j)

  module _ (f : V → ℤ) where
    abbrev pub sum_by : HashMap K V → ℤ
    sum_by [] = pos 0
    sum_by ((k, v) ∷ m) = f v +ℤ sum_by m

    -- Every value is positive.
    abbrev pub AllPositive : HashMap K V → Type 0
    AllPositive [] = Unit {0}
    AllPositive ((k, v) ∷ m) = (pos 0 <ℤ f v) × AllPositive m

    pub sum_by-insert_new :
        (k : K) (v : V) (m : HashMap K V) → get k m ≡ none → sum_by (insert k v m) ≡ sum_by m +ℤ f v
    sum_by-insert_new k v [] h = omega int_laws
    sum_by-insert_new k v ((j, w) ∷ m) h = elim (Bool-cases (j == k)) [
      | inl same ↦ absurd (ground arith)
      | inr other ↦
          let rest : get k m ≡ none = ground arith in
          rw (other, sum_by-insert_new k v m rest) (omega int_laws)
    ]

    pub remove_absent : (k : K) (m : HashMap K V) → get k m ≡ none → remove k m ≡ m
    remove_absent k [] h = refl
    remove_absent k ((j, w) ∷ m) h = ground (arith, remove_absent k m)

    pub sum_by-remove :
        (k : K) (v : V) (m : HashMap K V)
        → IsDistinct m
        → get k m ≡ some v
        → sum_by (remove k m) +ℤ f v ≡ sum_by m
    sum_by-remove k v [] d h = absurd (ground arith)
    sum_by-remove k v ((j, w) ∷ m) d h = elim (Bool-cases (j == k)) [
      | inl same ↦
          let jk : j ≡ k = (==_iff j k).0 same in
          let gone : remove k m ≡ m = remove_absent k m (ground arith) in
          let wv : w ≡ v = ground arith in rw (same, gone, wv) (omega int_laws)
      | inr other ↦
          let rest : get k m ≡ some v = ground arith in
          let ih = sum_by-remove k v m d.1 rest in rw (other, ← ih) (omega int_laws)
    ]

    pub AllPositive-insert :
        (k : K) (v : V) (m : HashMap K V)
        → AllPositive m
        → pos 0 <ℤ f v
        → AllPositive (insert k v m)
    AllPositive-insert k v [] a h = (h, tt)
    AllPositive-insert k v ((j, w) ∷ m) a h = ground (arith, AllPositive-insert k v m a.1 h)

    pub AllPositive-remove : (k : K) (m : HashMap K V) → AllPositive m → AllPositive (remove k m)
    AllPositive-remove k [] a = tt
    AllPositive-remove k ((j, w) ∷ m) a = ground (arith, AllPositive-remove k m a.1)

    pub AllPositive-get :
        (k : K) (v : V) (m : HashMap K V) → AllPositive m → get k m ≡ some v → pos 0 <ℤ f v
    AllPositive-get k v [] a h = absurd (ground arith)
    AllPositive-get k v ((j, w) ∷ m) a h = ground (arith, AllPositive-get k v m a.1)

    pub sum_by_nonneg : (m : HashMap K V) → AllPositive m → pos 0 ≤ℤ sum_by m
    sum_by_nonneg [] a = omega arith
    sum_by_nonneg ((j, w) ∷ m) a = omega (int_laws, sum_by_nonneg m a.1, a.0)
