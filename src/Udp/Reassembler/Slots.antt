-- ===== src/Udp/Reassembler/Slots.antt =====
-- Facts about the fragments of a slot: how many are there, and what they join to.
use nssh.Base.{◌⊎◌, inl, inr, ℕ, zero, suc, ◌+◌, ◌≤◌, ◌<◌, ◌≡◌, refl, arith, Option, none, some}
use nssh.Base.{List, [], ◌∷◌, length, get_elem?, set, replicate, length-append}
use nssh.Udp.Reassembler.{join_frags}

-- How many fragments have come.
unfoldable pub received : List (Option (List ℕ)) → ℕ
received [] = 0
received (none ∷ fs) = received fs
received (some f ∷ fs) = suc (received fs)

pub received-replicate : (n : ℕ) → received (replicate n none) ≡ 0
unfolding received
received-replicate zero = refl
received-replicate (suc n) = received-replicate n

pub join_frags-replicate : (n : ℕ) → join_frags (replicate n none) ≡ []
unfolding join_frags
join_frags-replicate zero = refl
join_frags-replicate (suc n) = join_frags-replicate n

pub received-le-length : (fs : List (Option (List ℕ))) → received fs ≤ length fs
unfolding received
received-le-length [] = omega arith
received-le-length (none ∷ fs) = omega (arith, received-le-length fs)
received-le-length (some f ∷ fs) = omega (arith, received-le-length fs)

pub received-set :
    (fs : List (Option (List ℕ))) (i : ℕ) (p : List ℕ)
    → get_elem? fs i ≡ some none
    → received (set fs i (some p)) ≡ received fs + 1
unfolding received
received-set [] i p h = cc
received-set (none ∷ fs) zero p h = omega arith
received-set (some f ∷ fs) zero p h = cc
received-set (none ∷ fs) (suc i) p h = received-set fs i p h
received-set (some f ∷ fs) (suc i) p h = omega (arith, received-set fs i p h)

pub length-join_frags-set :
    (fs : List (Option (List ℕ))) (i : ℕ) (p : List ℕ)
    → get_elem? fs i ≡ some none
    → length (join_frags (set fs i (some p))) ≡ length (join_frags fs) + length p
unfolding join_frags
length-join_frags-set [] i p h = cc
length-join_frags-set (none ∷ fs) zero p h = omega (arith, length-append p (join_frags fs))
length-join_frags-set (some f ∷ fs) zero p h = cc
length-join_frags-set (none ∷ fs) (suc i) p h = length-join_frags-set fs i p h
length-join_frags-set (some f ∷ fs) (suc i) p h = omega (
  arith,
  length-join_frags-set fs i p h,
  length-append f (join_frags (set fs i (some p))),
  length-append f (join_frags fs),
)

-- An index in range holds a fragment or waits for one.
pub get_elem?_cases :
    (fs : List (Option (List ℕ))) (i : ℕ)
    → i < length fs
    → (get_elem? fs i ≡ some none) ⊎ ((f : List ℕ) × (get_elem? fs i ≡ some (some f)))
get_elem?_cases [] i h = absurd (omega arith)
get_elem?_cases (none ∷ fs) zero h = inl refl
get_elem?_cases (some f ∷ fs) zero h = inr (f, refl)
get_elem?_cases (x ∷ fs) (suc i) h = get_elem?_cases fs i (omega arith)
