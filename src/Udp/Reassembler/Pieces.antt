-- ===== src/Udp/Reassembler/Pieces.antt =====
-- The fragments of a slot as pieces of one datagram.
use nssh.Base.{ℕ, zero, suc, ◌≤◌, ◌≡◌, refl, ap, arith, Option, none, some}
use nssh.Base.{List, [], ◌∷◌, ◌++◌, length, set, replicate, get_or, length-append}
use nssh.Udp.Reassembler.{join_frags}
use nssh.Udp.Reassembler.Slots.{received, received-le-length}

-- The pieces of a datagram put together.
abbrev pub concat : List (List ℕ) → List ℕ
concat [] = []
concat (p ∷ ps) = p ++ concat ps

-- The slot's fragments are pieces of `ps` at their own places.
abbrev pub Partial : List (Option (List ℕ)) → List (List ℕ) → Type 0
Partial [] [] = Unit
Partial [] (p ∷ ps) = ⊥
Partial (f ∷ fs) [] = ⊥
Partial (none ∷ fs) (p ∷ ps) = Partial fs ps
Partial (some f ∷ fs) (p ∷ ps) = (f ≡ p) × Partial fs ps

pub Partial-replicate : (ps : List (List ℕ)) → Partial (replicate (length ps) none) ps
Partial-replicate [] = tt
Partial-replicate (p ∷ ps) = Partial-replicate ps

pub Partial-set :
    (fs : List (Option (List ℕ))) (ps : List (List ℕ)) (i : ℕ)
    → Partial fs ps
    → Partial (set fs i (some (get_or ps i []))) ps
Partial-set [] [] i h = tt
Partial-set [] (p ∷ ps) i h = elim h [ ]
Partial-set (f ∷ fs) [] i h = elim h [ ]
Partial-set (none ∷ fs) (p ∷ ps) zero h = (refl, h)
Partial-set (some f ∷ fs) (p ∷ ps) zero h = (refl, h.1)
Partial-set (none ∷ fs) (p ∷ ps) (suc i) h = Partial-set fs ps i h
Partial-set (some f ∷ fs) (p ∷ ps) (suc i) h = (h.0, Partial-set fs ps i h.1)

pub length-Partial :
    (fs : List (Option (List ℕ))) (ps : List (List ℕ)) → Partial fs ps → length fs ≡ length ps
length-Partial [] [] h = refl
length-Partial [] (p ∷ ps) h = elim h [ ]
length-Partial (f ∷ fs) [] h = elim h [ ]
length-Partial (none ∷ fs) (p ∷ ps) h = ap suc (length-Partial fs ps h)
length-Partial (some f ∷ fs) (p ∷ ps) h = ap suc (length-Partial fs ps h.1)

-- Never more bytes than the datagram has, and all of them once every piece is there.
pub join_frags-le-concat :
    (fs : List (Option (List ℕ))) (ps : List (List ℕ))
    → Partial fs ps
    → length (join_frags fs) ≤ length (concat ps)
unfolding join_frags
join_frags-le-concat [] [] h = omega arith
join_frags-le-concat [] (p ∷ ps) h = elim h [ ]
join_frags-le-concat (f ∷ fs) [] h = elim h [ ]
join_frags-le-concat (none ∷ fs) (p ∷ ps) h =
    omega (arith, join_frags-le-concat fs ps h, length-append p (concat ps))
join_frags-le-concat (some f ∷ fs) (p ∷ ps) h = omega (
  arith,
  join_frags-le-concat fs ps h.1,
  length-append p (concat ps),
  length-append f (join_frags fs),
  ap length h.0,
)

pub join_frags-eq-concat :
    (fs : List (Option (List ℕ))) (ps : List (List ℕ))
    → Partial fs ps
    → received fs ≡ length ps
    → join_frags fs ≡ concat ps
unfolding join_frags received
join_frags-eq-concat [] [] h e = refl
join_frags-eq-concat [] (p ∷ ps) h e = elim h [ ]
join_frags-eq-concat (f ∷ fs) [] h e = elim h [ ]
join_frags-eq-concat (none ∷ fs) (p ∷ ps) h e =
    absurd (omega (arith, received-le-length fs, length-Partial fs ps h))
join_frags-eq-concat (some f ∷ fs) (p ∷ ps) h e =
    cc (h.0, join_frags-eq-concat fs ps h.1 (omega arith))
