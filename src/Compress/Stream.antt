-- ===== src/Compress/Stream.antt =====
-- What the frames put on the stream.
use nssh.Base.{ℕ, zero, suc, ◌≤◌, ◌≡◌, ◌≢◌, refl, sym, ap, ◌∙◌, arith}
use nssh.Base.{false, Option, none, some, List, [], ◌∷◌, ◌++◌, append_assoc, append-nil}
use nssh.Base.{◌==◌, length, take, drop, Bool-cases, Option-cases, inl, inr}
use mathlib.Core.Option
use nssh.Base.{length-drop, take-append-drop}
use nssh.Compress.{Sink, WriteError, write_loop, write_full}

-- The contract of io.Writer, with `sent` for what the writer has taken so far: it takes as many bytes off
-- the front of the slice as it returns.
pub record IsWriter {W : Type 0} (sink : Sink W) (sent : W → List ℕ) : Type 0 where
  pub grows : (b : List ℕ) (w : W) → sent (sink.write b w).2 ≡ sent w ++ take (sink.write b w).0 b

module _ {W : Type 0} (sink : Sink W) where
  -- Two numbers of rounds that are both enough give the same.
  same_rounds :
      (f g : ℕ) (b : List ℕ) (w : W)
      → length b ≤ f
      → length b ≤ g
      → write_loop sink f b w ≡ write_loop sink g b w
  unfolding write_loop
  same_rounds f g [] w h k = refl
  same_rounds zero g (x ∷ b) w h k = absurd (omega arith)
  same_rounds (suc f) zero (x ∷ b) w h k = absurd (omega arith)
  same_rounds (suc f) (suc g) (x ∷ b) w h k = elim (Bool-cases (sink.write (x ∷ b) w).1) [
    | inr stopped ↦ rw stopped refl
    | inl taken ↦ elim (Bool-cases ((sink.write (x ∷ b) w).0 == 0)) [
      | inl nothing ↦ rw (taken, nothing) refl
      | inr some_bytes ↦
          rw (taken, some_bytes)
            (same_rounds f g (drop (sink.write (x ∷ b) w).0 (x ∷ b)) (sink.write (x ∷ b) w).2
              (shorter f some_bytes h) (shorter g some_bytes k))
    ]
  ]
    where
      shorter :
          (f : ℕ)
          → ((sink.write (x ∷ b) w).0 == 0) ≡ false
          → length (x ∷ b) ≤ suc f
          → length (drop (sink.write (x ∷ b) w).0 (x ∷ b)) ≤ f
      shorter f n h = ground (arith, length-drop (sink.write (x ∷ b) w).0 (x ∷ b))

  ends : (fuel : ℕ) (b : List ℕ) (w : W) → length b ≤ fuel → write_loop sink fuel b w ≢ none
  unfolding write_loop
  ends fuel [] w h e = cc
  ends zero (x ∷ b) w h e = omega arith
  ends (suc f) (x ∷ b) w h e = elim (Bool-cases (sink.write (x ∷ b) w).1) [
    | inr stopped ↦ some≢none (rw stopped at e)
    | inl taken ↦ elim (Bool-cases ((sink.write (x ∷ b) w).0 == 0)) [
      | inl nothing ↦ some≢none (rw (taken, nothing) at e)
      | inr some_bytes ↦
          ends f (drop (sink.write (x ∷ b) w).0 (x ∷ b)) (sink.write (x ∷ b) w).2
            (ground (arith, length-drop (sink.write (x ∷ b) w).0 (x ∷ b)))
            (rw (taken, some_bytes) at e)
    ]
  ]
    where
      some≢none : {r : Option WriteError × W} → some r ≡ none → ⊥
      some≢none e = cc

  -- As many rounds as bytes are enough for writeFull, whatever the channel does, and more rounds
  -- change nothing.
  pub write_loop_ends :
      (fuel : ℕ) (b : List ℕ) (w : W)
      → length b ≤ fuel
      → write_loop sink fuel b w ≡ some (write_full sink b w)
  unfolding write_full
  write_loop_ends fuel b w h =
      same_rounds fuel (length b) b w h (omega arith)
      ∙ elim (Option-cases (write_loop sink (length b) b w)) [
        | inl never ↦ absurd (ends (length b) b w (omega arith) never)
        | inr (r, e) ↦ e ∙ ap some (sym (rw (e, write_full) refl))
      ]

  module _ (sent : W → List ℕ) (contract : IsWriter sink sent) where
    sent-write_loop :
        (fuel : ℕ) (b : List ℕ) (w w' : W)
        → write_loop sink fuel b w ≡ some (none, w')
        → sent w' ≡ sent w ++ b
    unfolding write_loop
    sent-write_loop fuel [] w w' e =
        sym (append-nil (sent w) ∙ ap sent (ap (λ r. r.1) (some_same e)))
      where
        some_same : {r r' : Option WriteError × W} → some r ≡ some r' → r ≡ r'
        some_same {r} {r'} e = Option.some-injective r r' e
    sent-write_loop zero (x ∷ b) w w' e = cc
    sent-write_loop (suc f) (x ∷ b) w w' e = elim (Bool-cases (sink.write (x ∷ b) w).1) [
      | inr stopped ↦ cc (rw stopped at e)
      | inl taken ↦ elim (Bool-cases ((sink.write (x ∷ b) w).0 == 0)) [
        | inl nothing ↦ cc (rw (taken, nothing) at e)
        | inr some_bytes ↦
            sent-write_loop f (drop n (x ∷ b)) (sink.write (x ∷ b) w).2 w'
              (rw (taken, some_bytes) at e)
            ∙ ap (λ s. s ++ drop n (x ∷ b)) (contract.grows (x ∷ b) w)
            ∙ append_assoc (sent w) (take n (x ∷ b)) (drop n (x ∷ b))
            ∙ ap (λ s. sent w ++ s) (take-append-drop n (x ∷ b))
      ]
    ]
      where
        n : ℕ
        n = (sink.write (x ∷ b) w).0

    -- What writeFull has written without an error stands behind what was sent before.
    pub sent-write_full :
        (b : List ℕ) (w : W)
        → (write_full sink b w).0 ≡ none
        → sent (write_full sink b w).1 ≡ sent w ++ b
    sent-write_full b w e = sent-write_loop (length b) b w (write_full sink b w).1 (
        write_loop_ends (length b) b w (omega arith)
        ∙ ap (λ o. some (o, (write_full sink b w).1)) e)
