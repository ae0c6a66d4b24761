-- ===== src/Base/Table.antt =====
-- Go maps with string keys, as association lists. The order of the list stands for the order in which
-- one `range` visits the entries.
use Prim.Native.String.{String}
use mathlib.Core.Path.{◌≡◌, refl, subst, ◌∙◌}
use mathlib.Core.Logic.{inl, inr}
use mathlib.Core.Option
use mathlib.Core.Option.{Option, none, some}
use mathlib.Core.List.{List, [], ◌∷◌}
use native.Mathlib.Omega.{arith}
use text.Mathlib.TextEquality.{eq_iff}
use text.Mathlib.TextPositions.{eq_refl}
use nssh.Base.Text.{str_eq}
use nssh.Base.Tests.{if◌then◌else◌, Bool-cases}

abbrev pub Table {ℓ} : Type ℓ → Type ℓ
Table V = List (String × V)

module _ {ℓ} {V : Type ℓ} where
  unfoldable pub find : String → Table V → Option V
  find k [] = none
  find k ((j, v) ∷ m) = if str_eq j k then some v else find k m

  -- delete(m, k)
  unfoldable pub delete : String → Table V → Table V
  delete k [] = []
  delete k ((j, v) ∷ m) = let rest = delete k m in if str_eq j k then rest else (j, v) ∷ rest

  -- m[k] = v
  unfoldable pub put : String → V → Table V → Table V
  put k v m = (k, v) ∷ delete k m

  pub find-delete :
      (k j : String) (m : Table V) → find j (delete k m) ≡ (if str_eq k j then none else find j m)
  unfolding find delete
  find-delete k j [] = ground arith
  find-delete k j ((i, v) ∷ m) =
      ground (arith, eq_iff k j, eq_iff i k, eq_iff i j, find-delete k j m)

  pub find-put :
      (k j : String) (v : V) (m : Table V)
      → find j (put k v m) ≡ (if str_eq k j then some v else find j m)
  unfolding put find
  find-put k j v m = ground (arith, eq_iff k j, find-delete k j m)

  -- Every entry satisfies `P`.
  abbrev pub AllEntries {κ} : (String → V → Type κ) → Table V → Type κ
  AllEntries P [] = Unit {κ}
  AllEntries P ((k, v) ∷ m) = P k v × AllEntries P m

  pub AllEntries-find {κ} :
      (P : String → V → Type κ) (k : String) (m : Table V) {v : V}
      → AllEntries P m
      → find k m ≡ some v
      → P k v
  unfolding find
  AllEntries-find P k [] h e = cc
  AllEntries-find P k ((i, w) ∷ m) {v} h e = elim (Bool-cases (str_eq i k)) [
    | inl q ↦
        subst (λ j. P j v) ((eq_iff i k).0 q)
          (subst (P i) (Option.some-injective w v (rw q at e)) h.0)
    | inr q ↦ AllEntries-find P k m h.1 (rw q at e)
  ]

  pub AllEntries-delete {κ} :
      (P : String → V → Type κ) (k : String) (m : Table V)
      → AllEntries P m
      → AllEntries P (delete k m)
  unfolding delete
  AllEntries-delete P k [] h = h
  AllEntries-delete P k ((i, v) ∷ m) h = elim (Bool-cases (str_eq i k)) [
    | inl q ↦ rw q (AllEntries-delete P k m h.1)
    | inr q ↦ rw q (h.0, AllEntries-delete P k m h.1)
  ]

  pub AllEntries-put {κ} :
      (P : String → V → Type κ) (k : String) (v : V) (m : Table V)
      → P k v
      → AllEntries P m
      → AllEntries P (put k v m)
  unfolding put
  AllEntries-put P k v m p h = (p, AllEntries-delete P k m h)

  -- Every key has one entry.
  abbrev pub OneEach : Table V → Type ℓ
  OneEach [] = Unit {ℓ}
  OneEach ((k, v) ∷ m) = (find k m ≡ none) × OneEach m

  find-delete-none : (k j : String) (m : Table V) → find j m ≡ none → find j (delete k m) ≡ none
  find-delete-none k j m h = ground (arith, find-delete k j m)

  pub OneEach-delete : (k : String) (m : Table V) → OneEach m → OneEach (delete k m)
  unfolding delete
  OneEach-delete k [] h = h
  OneEach-delete k ((i, v) ∷ m) h = elim (Bool-cases (str_eq i k)) [
    | inl q ↦ rw q (OneEach-delete k m h.1)
    | inr q ↦ rw q (find-delete-none k i m h.0, OneEach-delete k m h.1)
  ]

  pub OneEach-put : (k : String) (v : V) (m : Table V) → OneEach m → OneEach (put k v m)
  unfolding put
  OneEach-put k v m h = (find-delete k k m ∙ rw (eq_refl k) refl, OneEach-delete k m h)

  -- Every value replaced, with its key at hand.
  unfoldable pub map_entries : (String → V → V) → Table V → Table V
  map_entries f [] = []
  map_entries f ((k, v) ∷ m) = (k, f k v) ∷ map_entries f m

  find-map_entries :
      (f : String → V → V) (k : String) (m : Table V)
      → find k m ≡ none
      → find k (map_entries f m) ≡ none
  unfolding find map_entries
  find-map_entries f k [] h = refl
  find-map_entries f k ((i, v) ∷ m) h = elim (Bool-cases (str_eq i k)) [
    | inl q ↦ cc (rw q at h)
    | inr q ↦ rw q (find-map_entries f k m (rw q at h))
  ]

  pub OneEach-map_entries :
      (f : String → V → V) (m : Table V) → OneEach m → OneEach (map_entries f m)
  unfolding map_entries
  OneEach-map_entries f [] h = h
  OneEach-map_entries f ((k, v) ∷ m) h = (find-map_entries f k m h.0, OneEach-map_entries f m h.1)

  pub AllEntries-map_entries {κ} :
      (P : String → V → Type κ) (f : String → V → V) (m : Table V)
      → ((k : String) (v : V) → P k v → P k (f k v))
      → AllEntries P m
      → AllEntries P (map_entries f m)
  unfolding map_entries
  AllEntries-map_entries P f [] g h = h
  AllEntries-map_entries P f ((k, v) ∷ m) g h = (g k v h.0, AllEntries-map_entries P f m g h.1)
