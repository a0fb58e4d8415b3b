-- ===== src/Prelude/Entries.antt =====
-- What holds of every entry of a map, and the number of its entries.
use Prim.Native.Nat.{◌≤◌, suc}
use mathlib.Core.Path.{◌≡◌, sym, subst}
use mathlib.Core.Bool.{Bool, true}
use mathlib.Core.Logic.{inl, inr}
use mathlib.Core.Option.{some}
use mathlib.Core.List.{[], ◌∷◌}
use native.Mathlib.Omega.{arith}
use gemacast.Prelude.Lists.{length}
use gemacast.Prelude.Tests.{Bool-cases, is_some}
use gemacast.Prelude.Assoc.{Eq, Map, lookup, insert, retain, remove}

abbrev pub Every {ℓ κ} : {K : Type 0} {V : Type ℓ} → (K → V → Type κ) → Map K V → Type κ
Every P [] = Unit
Every P ((k, v) ∷ m) = P k v × Every P m

same_value {ℓ} : {V : Type ℓ} (w v : V) → some w ≡ some v → w ≡ v
same_value w v h = cc

module _ {ℓ κ} {K : Type 0} ⦃e : Eq K⦄ {V : Type ℓ} (P : K → V → Type κ) where
  pub Every-lookup : (k : K) (v : V) (m : Map K V) → Every P m → lookup k m ≡ some v → P k v
  unfolding lookup
  Every-lookup k v [] a h = absurd (ground arith)
  Every-lookup k v ((j, w) ∷ m) a h = elim (Bool-cases (e.beq j k)) [
    | inl t ↦
        let v_eq : w ≡ v = same_value w v (rw t at h) in
        let k_eq : j ≡ k = (e.beq_iff j k).0 t in subst (λ i. P i v) k_eq (subst (P j) v_eq a.0)
    | inr n ↦ Every-lookup k v m a.1 (rw n at h)
  ]

  pub Every-insert : (k : K) (v : V) (m : Map K V) → Every P m → P k v → Every P (insert k v m)
  unfolding insert
  Every-insert k v [] a p = (p, tt)
  Every-insert k v ((j, w) ∷ m) a p = elim (Bool-cases (e.beq j k)) [
    | inl t ↦ rw t (subst (λ i. P i v) (sym ((e.beq_iff j k).0 t)) p, a.1)
    | inr n ↦ rw n (a.0, Every-insert k v m a.1 p)
  ]

  pub Every-remove : (k : K) (m : Map K V) → Every P m → Every P (remove k m)
  unfolding remove
  Every-remove k [] a = tt
  Every-remove k ((j, w) ∷ m) a = elim (Bool-cases (e.beq j k)) [
    | inl t ↦ rw t a.1
    | inr n ↦ rw n (a.0, Every-remove k m a.1)
  ]

module _ {ℓ κ} {K : Type 0} {V : Type ℓ} (P : K → V → Type κ) where
  pub Every-retain : (keep : K → V → Bool) (m : Map K V) → Every P m → Every P (retain keep m)
  unfolding retain
  Every-retain keep [] a = tt
  Every-retain keep ((j, w) ∷ m) a = elim (Bool-cases (keep j w)) [
    | inl t ↦ rw t (a.0, Every-retain keep m a.1)
    | inr n ↦ rw n (Every-retain keep m a.1)
  ]

module _ {ℓ} {K : Type 0} {V : Type ℓ} where
  pub length-retain : (keep : K → V → Bool) (m : Map K V) → length (retain keep m) ≤ length m
  unfolding retain
  length-retain keep [] = omega arith
  length-retain keep ((j, w) ∷ m) = ground (arith, length-retain keep m)

module _ {ℓ} {K : Type 0} ⦃e : Eq K⦄ {V : Type ℓ} where
  pub length-insert : (k : K) (v : V) (m : Map K V) → length (insert k v m) ≤ suc (length m)
  unfolding insert
  length-insert k v [] = omega arith
  length-insert k v ((j, w) ∷ m) = ground (arith, length-insert k v m)

  pub length-remove : (k : K) (m : Map K V) → length (remove k m) ≤ length m
  unfolding remove
  length-remove k [] = omega arith
  length-remove k ((j, w) ∷ m) = ground (arith, length-remove k m)

  -- A write to a key that is there.
  pub length-insert_known :
      (k : K) (v : V) (m : Map K V) → is_some (lookup k m) ≡ true → length (insert k v m) ≡ length m
  unfolding insert lookup
  length-insert_known k v [] h = absurd (ground arith)
  length-insert_known k v ((j, w) ∷ m) h = ground (arith, length-insert_known k v m, h)
