-- ===== src/Base/Map.antt =====
-- Go maps with numeric keys, as association lists. Iteration order is not modelled.
use Prim.Native.Nat.{ℕ, suc, ◌≤◌}
use mathlib.Core.Path.{◌≡◌, subst}
use mathlib.Core.Logic.{inl, inr}
use mathlib.Core.Option
use mathlib.Core.List.{List, [], ◌∷◌}
use mathlib.Core.Option.{Option, none, some}
use native.Mathlib.Omega.{arith}
use nssh.Base.Tests.{◌==◌, if◌then◌else◌, Bool-cases, ==_iff}
use nssh.Base.Lists.{length}

abbrev pub Map {ℓ} : Type ℓ → Type ℓ
Map V = List (ℕ × V)

module _ {ℓ} {V : Type ℓ} where
  unfoldable pub lookup : ℕ → Map V → Option V
  lookup k [] = none
  lookup k ((j, v) ∷ m) = if j == k then some v else lookup k m

  -- delete(m, k)
  unfoldable pub without : ℕ → Map V → Map V
  without k [] = []
  without k ((j, v) ∷ m) = let rest = without k m in if j == k then rest else (j, v) ∷ rest

  -- m[k] = v
  unfoldable pub insert : ℕ → V → Map V → Map V
  insert k v m = (k, v) ∷ without k m

  pub lookup-without :
      (k j : ℕ) (m : Map V) → lookup j (without k m) ≡ (if k == j then none else lookup j m)
  unfolding lookup without
  lookup-without k j [] = ground arith
  lookup-without k j ((i, v) ∷ m) = ground (arith, lookup-without k j m)

  pub lookup-insert :
      (k j : ℕ) (v : V) (m : Map V)
      → lookup j (insert k v m) ≡ (if k == j then some v else lookup j m)
  unfolding insert lookup
  lookup-insert k j v m = ground (arith, lookup-without k j m)

  pub length-without : (k : ℕ) (m : Map V) → length (without k m) ≤ length m
  unfolding without
  length-without k [] = omega arith
  length-without k ((i, v) ∷ m) = ground (arith, length-without k m)

  -- Deleting a key that is there makes the map smaller.
  pub length-without_mem :
      (k : ℕ) (m : Map V) {v : V} → lookup k m ≡ some v → suc (length (without k m)) ≤ length m
  unfolding without lookup
  length-without_mem k [] h = ground arith
  length-without_mem k ((i, v) ∷ m) {v = w} h =
      ground (arith, length-without k m, length-without_mem k m {v = w})

  -- Every value of the map satisfies `P`.
  abbrev pub Values {κ} : (V → Type κ) → Map V → Type κ
  Values P [] = Unit {κ}
  Values P ((k, v) ∷ m) = P v × Values P m

  pub Values-lookup {κ} :
      (P : V → Type κ) (k : ℕ) (m : Map V) {v : V} → Values P m → lookup k m ≡ some v → P v
  unfolding lookup
  Values-lookup P k [] h e = cc
  Values-lookup P k ((i, w) ∷ m) {v} h e = elim (Bool-cases (i == k)) [
    | inl q ↦ subst P (Option.some-injective w v (rw q at e)) h.0
    | inr q ↦ Values-lookup P k m h.1 (rw q at e)
  ]

  pub Values-without {κ} :
      (P : V → Type κ) (k : ℕ) (m : Map V) → Values P m → Values P (without k m)
  unfolding without
  Values-without P k [] h = h
  Values-without P k ((i, v) ∷ m) h = elim (Bool-cases (i == k)) [
    | inl q ↦ rw q (Values-without P k m h.1)
    | inr q ↦ rw q (h.0, Values-without P k m h.1)
  ]

  pub Values-insert {κ} :
      (P : V → Type κ) (k : ℕ) (v : V) (m : Map V) → P v → Values P m → Values P (insert k v m)
  unfolding insert
  Values-insert P k v m p h = (p, Values-without P k m h)

  -- Every key has one entry.
  abbrev pub IsMap : Map V → Type ℓ
  IsMap [] = Unit {ℓ}
  IsMap ((k, v) ∷ m) = (lookup k m ≡ none) × IsMap m

  -- Every entry satisfies `P`.
  abbrev pub Entries {κ} : (ℕ → V → Type κ) → Map V → Type κ
  Entries P [] = Unit {κ}
  Entries P ((k, v) ∷ m) = P k v × Entries P m

  pub lookup-without-none :
      (k j : ℕ) (m : Map V) → lookup j m ≡ none → lookup j (without k m) ≡ none
  lookup-without-none k j m h = ground (arith, lookup-without k j m)

  pub IsMap-without : (k : ℕ) (m : Map V) → IsMap m → IsMap (without k m)
  unfolding without
  IsMap-without k [] h = h
  IsMap-without k ((i, v) ∷ m) h = elim (Bool-cases (i == k)) [
    | inl q ↦ rw q (IsMap-without k m h.1)
    | inr q ↦ rw q (lookup-without-none k i m h.0, IsMap-without k m h.1)
  ]

  pub IsMap-insert : (k : ℕ) (v : V) (m : Map V) → IsMap m → IsMap (insert k v m)
  unfolding insert
  IsMap-insert k v m h = (ground (arith, lookup-without k k m), IsMap-without k m h)

  pub Entries-lookup {κ} :
      (P : ℕ → V → Type κ) (k : ℕ) (m : Map V) {v : V} → Entries P m → lookup k m ≡ some v → P k v
  unfolding lookup
  Entries-lookup P k [] h e = cc
  Entries-lookup P k ((i, w) ∷ m) {v} h e = elim (Bool-cases (i == k)) [
    | inl q ↦
        subst (λ j. P j v) ((==_iff i k).0 q)
          (subst (P i) (Option.some-injective w v (rw q at e)) h.0)
    | inr q ↦ Entries-lookup P k m h.1 (rw q at e)
  ]

  pub Entries-without {κ} :
      (P : ℕ → V → Type κ) (k : ℕ) (m : Map V) → Entries P m → Entries P (without k m)
  unfolding without
  Entries-without P k [] h = h
  Entries-without P k ((i, v) ∷ m) h = elim (Bool-cases (i == k)) [
    | inl q ↦ rw q (Entries-without P k m h.1)
    | inr q ↦ rw q (h.0, Entries-without P k m h.1)
  ]

  pub Entries-insert {κ} :
      (P : ℕ → V → Type κ) (k : ℕ) (v : V) (m : Map V)
      → P k v
      → Entries P m
      → Entries P (insert k v m)
  unfolding insert
  Entries-insert P k v m p h = (p, Entries-without P k m h)
