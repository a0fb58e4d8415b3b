-- ===== src/Prelude/Assoc.antt =====
-- A hash map as an association list, over keys with an equality test. The order of the entries stands
-- for the map's unspecified order of iteration. Most keys are texts, given by their bytes.
use Prim.Native.Nat.{ℕ}
use mathlib.Core.Path.{◌≡◌, refl, ap}
use mathlib.Core.Logic.{◌↔◌}
use mathlib.Core.Bool.{Bool, true, false, ◌&&◌}
use mathlib.Core.Option.{Option, none, some}
use mathlib.Core.List.{List, [], ◌∷◌}
use native.Mathlib.Omega.{arith}
use gemacast.Prelude.Tests.{◌==◌, if◌then◌else◌}

abbrev pub Text : Type 0
Text = List ℕ

unfoldable pub text_eq : Text → Text → Bool
text_eq [] [] = true
text_eq (x ∷ xs) (y ∷ ys) = x == y && text_eq xs ys
text_eq _ _ = false

pub text_eq_sound : (s t : Text) → text_eq s t ≡ true → s ≡ t
unfolding text_eq
text_eq_sound [] [] h = refl
text_eq_sound (x ∷ xs) [] h = cc
text_eq_sound [] (y ∷ ys) h = cc
text_eq_sound (x ∷ xs) (y ∷ ys) h = ground (arith, text_eq_sound xs ys)

pub text_eq_refl : (s : Text) → text_eq s s ≡ true
unfolding text_eq
text_eq_refl [] = refl
text_eq_refl (x ∷ xs) = ground (arith, text_eq_refl xs)

pub text_eq_iff : (s t : Text) → (text_eq s t ≡ true) ↔ (s ≡ t)
text_eq_iff s t = (text_eq_sound s t, λ e. ground (arith, text_eq_refl s))

pub record Eq (K : Type 0) : Type 0 where
  pub beq : K → K → Bool
  pub beq_iff : (j k : K) → (beq j k ≡ true) ↔ (j ≡ k)

instance abbrev pub text_Eq : Eq Text
text_Eq = record { beq = text_eq; beq_iff = text_eq_iff }

abbrev pub Map {ℓ} : Type 0 → Type ℓ → Type ℓ
Map K V = List (K × V)

abbrev pub Assoc {ℓ} : Type ℓ → Type ℓ
Assoc V = Map Text V

module _ {ℓ} {K : Type 0} {V : Type ℓ} where
  -- `map.retain(|k, v| keep)`
  unfoldable pub retain : (K → V → Bool) → Map K V → Map K V
  retain keep [] = []
  retain keep ((j, w) ∷ m) = let rest = retain keep m in if keep j w then (j, w) ∷ rest else rest

  abbrev pub kept : (K → V → Bool) → K → Option V → Option V
  kept keep k none = none
  kept keep k (some v) = if keep k v then some v else none

module _ {ℓ} {K : Type 0} ⦃e : Eq K⦄ {V : Type ℓ} where
  unfoldable pub lookup : K → Map K V → Option V
  lookup k [] = none
  lookup k ((j, v) ∷ m) = if e.beq j k then some v else lookup k m

  -- `map.insert(k, v)`
  unfoldable pub insert : K → V → Map K V → Map K V
  insert k v [] = (k, v) ∷ []
  insert k v ((j, w) ∷ m) = if e.beq j k then (j, v) ∷ m else (j, w) ∷ insert k v m

  -- `map.remove(k)`
  unfoldable pub remove : K → Map K V → Map K V
  remove k [] = []
  remove k ((j, w) ∷ m) = if e.beq j k then m else (j, w) ∷ remove k m

  -- No two entries have one key.
  abbrev pub Unique : Map K V → Type ℓ
  Unique [] = Unit
  Unique ((j, w) ∷ m) = (lookup j m ≡ none) × Unique m

module _ {ℓ} {K : Type 0} ⦃e : Eq K⦄ {V : Type ℓ} where
  pub lookup-insert :
      (k j : K) (v : V) (m : Map K V)
      → lookup j (insert k v m) ≡ (if e.beq k j then some v else lookup j m)
  unfolding lookup insert
  lookup-insert k j v [] = refl
  lookup-insert k j v ((i, w) ∷ m) =
      ground (arith, e.beq_iff k j, e.beq_iff i k, e.beq_iff i j, lookup-insert k j v m)

  pub lookup-insert_eq :
      (k j : K) (v : V) (m : Map K V) → e.beq k j ≡ true → lookup j (insert k v m) ≡ some v
  lookup-insert_eq k j v m h = ground (arith, lookup-insert k j v m, h)

  pub lookup-insert_ne :
      (k j : K) (v : V) (m : Map K V) → e.beq k j ≡ false → lookup j (insert k v m) ≡ lookup j m
  lookup-insert_ne k j v m h = ground (arith, lookup-insert k j v m, h)

  pub insert-Unique : (k : K) (v : V) (m : Map K V) → Unique m → Unique (insert k v m)
  unfolding lookup insert
  insert-Unique k v [] u = (refl, tt)
  insert-Unique k v ((i, w) ∷ m) u =
      ground (arith, lookup-insert k i v m, insert-Unique k v m u.1, e.beq_iff k i, e.beq_iff i k)

  pub lookup-remove :
      (k j : K) (m : Map K V)
      → Unique m
      → lookup j (remove k m) ≡ (if e.beq k j then none else lookup j m)
  unfolding lookup remove
  lookup-remove k j [] u = ground arith
  lookup-remove k j ((i, w) ∷ m) u = ground (
    arith,
    e.beq_iff k j,
    e.beq_iff i k,
    e.beq_iff i j,
    lookup-remove k j m u.1,
    u.0,
    ap (λ (t : K). lookup t m) {x = i} {y = j},
  )

  pub remove-Unique : (k : K) (m : Map K V) → Unique m → Unique (remove k m)
  unfolding lookup remove
  remove-Unique k [] u = tt
  remove-Unique k ((i, w) ∷ m) u = ground (arith, lookup-remove k i m u.1, remove-Unique k m u.1)

  pub lookup-retain :
      (keep : K → V → Bool) (j : K) (m : Map K V)
      → Unique m
      → lookup j (retain keep m) ≡ kept keep j (lookup j m)
  unfolding lookup retain
  lookup-retain keep j [] u = refl
  lookup-retain keep j ((i, w) ∷ m) u = ground (
    arith,
    e.beq_iff i j,
    lookup-retain keep j m u.1,
    u.0,
    ap (λ (t : K). lookup t m) {x = i} {y = j},
    ap (λ (t : K). keep t w) {x = i} {y = j},
  )

  pub retain-Unique : (keep : K → V → Bool) (m : Map K V) → Unique m → Unique (retain keep m)
  unfolding lookup retain
  retain-Unique keep [] u = tt
  retain-Unique keep ((i, w) ∷ m) u =
      ground (arith, lookup-retain keep i m u.1, u.0, retain-Unique keep m u.1)

  pub lookup-remove_ne :
      (k j : K) (m : Map K V) → e.beq k j ≡ false → lookup j (remove k m) ≡ lookup j m
  unfolding lookup remove
  lookup-remove_ne k j [] n = refl
  lookup-remove_ne k j ((i, w) ∷ m) n =
      ground (arith, e.beq_iff k j, e.beq_iff i k, e.beq_iff i j, lookup-remove_ne k j m n)
