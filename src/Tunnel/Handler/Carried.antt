-- ===== src/Tunnel/Handler/Carried.antt =====
-- What handleChannel carries, in every order of its steps: the bytes of each side, whole and in order.
use nssh.Base.{
  ℕ, ◌≡◌, refl, sym, ap, ◌∙◌, subst, Bool, true, false, Option, none, some, List, [], ◌++◌,
}
use nssh.Base.{
  ◌&&◌, not, ==_iff, append-nil, append_assoc, length, take, take_all, Bool-cases, inl, inr, arith,
}
use nssh.Compress.{Sink, WriteError, CompressWriter}
use nssh.Compress.Stream.{IsWriter}
use nssh.Compress.Decode.{IsPartOf, Decodes, write-IsPartOf}
use nssh.Tunnel.Handler.{
  Handling, fresh_handling, copy_write, up_write, up_chunk, down_chunk, up_ends, down_ends,
}
use nssh.Tunnel.Handler.{no_error, force_close, finish_handling, Step, Reach, here, next}
use nssh.Tunnel.Handler.{copies_up, copies_down, ends_up, ends_down, cancels, returns, times_out}

both_true : (a b : Bool) → (a && b) ≡ true → (a ≡ true) × (b ≡ true)
both_true a b h = ground arith

true_of_not : (b : Bool) → not b ≡ false → b ≡ true
true_of_not b h = ground arith

none_of : (o : Option WriteError) → no_error o ≡ true → o ≡ none
none_of none h = refl
none_of (some e) h = cc

-- A write of io.CopyBuffer without an error has sent its chunk.
sent-copy_write :
    {W : Type 0} (sink : Sink W) (sent : W → List ℕ)
    → IsWriter sink sent
    → (p : List ℕ) (w : W) → (copy_write sink p w).0 ≡ true
    → sent (copy_write sink p w).1 ≡ sent w ++ p
unfolding copy_write
sent-copy_write sink sent contract p w ok =
    contract.grows p w
    ∙ ap (λ t. sent w ++ t)
        (ap (λ n. take n p) ((==_iff (sink.write p w).0 (length p)).0 (both_true _ _ ok).1)
          ∙ take_all (length p) p (omega arith))

module _ {W L : Type 0} (up : Sink W) (down : Sink L) (sent : W → List ℕ) (arrived : L → List ℕ)
    (writer : IsWriter up sent) (local_writer : IsWriter down arrived)
    (inflate : List ℕ → Option (List ℕ))
    (undone : (b z : List ℕ) → up.deflate b ≡ some z → inflate z ≡ some b) where
  -- What stands on the channel from `w` to `w'` is `p`: as frames with compression, else as it is.
  abbrev pub IsCarried : Bool → List ℕ → W → W → Type 0
  IsCarried true p w w' = IsPartOf sent inflate p w w'
  IsCarried false p w w' = sent w' ≡ sent w ++ p

  IsCarried-nil : (compress : Bool) (w : W) → IsCarried compress [] w w
  IsCarried-nil true w = record {
    stream = [];
    on_stream = sym (append-nil (sent w));
    decodes = λ s q d. d;
  }
  IsCarried-nil false w = sym (append-nil (sent w))

  IsCarried-append :
      (compress : Bool) (p q : List ℕ) (u v w : W)
      → IsCarried compress p u v
      → IsCarried compress q v w
      → IsCarried compress (p ++ q) u w
  IsCarried-append true p q u v w h k = record {
    stream = h.stream ++ k.stream;
    on_stream =
        k.on_stream ∙ ap (λ t. t ++ k.stream) h.on_stream ∙ append_assoc (sent u) h.stream k.stream;
    decodes = λ s r d.
        subst (λ t. Decodes inflate t ((p ++ q) ++ r)) (sym (append_assoc h.stream k.stream s))
          (subst (Decodes inflate _) (sym (append_assoc p q r))
            (h.decodes (k.stream ++ s) (q ++ r) (k.decodes s r d)));
  }
  IsCarried-append false p q u v w h k = k ∙ ap (λ t. t ++ q) h ∙ append_assoc (sent u) p q

  up_write-IsCarried :
      (compress : Bool) (c : CompressWriter) (p : List ℕ) (w : W)
      → (up_write up compress c p w).0 ≡ true
      → IsCarried compress p w (up_write up compress c p w).2
  unfolding up_write
  up_write-IsCarried true c p w ok =
      write-IsPartOf up sent writer inflate undone c p w (none_of _ (both_true _ _ ok).0)
  up_write-IsCarried false c p w ok = sent-copy_write up sent writer p w ok

  -- Until a write fails, what has been read stands on the other side.
  pub record IsHandling (compress : Bool) (w : W) (l : L) (s : Handling W L) : Type 0 where
    pub up_carried : s.up_error ≡ false → IsCarried compress s.taken w s.channel
    pub down_carried : s.down_error ≡ false → arrived s.local ≡ arrived l ++ s.received

  module _ {compress : Bool} {w : W} {l : L} where
    Step-IsHandling :
        {s t : Handling W L}
        → Step up down compress s t
        → IsHandling compress w l s
        → IsHandling compress w l t
    unfolding up_chunk down_chunk up_ends down_ends force_close finish_handling
    Step-IsHandling (copies_up p s going fine) i = record {
      up_carried = λ h.
          IsCarried-append compress s.taken p w s.channel _ (i.up_carried fine)
            (up_write-IsCarried compress s.writer p s.channel (true_of_not _ h));
      down_carried = i.down_carried;
    }
    Step-IsHandling (copies_down p s going fine) i = record {
      up_carried = i.up_carried;
      down_carried = λ h.
          sent-copy_write down arrived local_writer p s.local (true_of_not _ h)
          ∙ ap (λ t. t ++ p) (i.down_carried fine)
          ∙ append_assoc (arrived l) s.received p;
    }
    Step-IsHandling (ends_up s going) i = elim (Bool-cases s.once) [
      | inl e ↦ rw e (record { up_carried = i.up_carried; down_carried = i.down_carried })
      | inr e ↦ rw e (record { up_carried = i.up_carried; down_carried = i.down_carried })
    ]
    Step-IsHandling (ends_down s going) i = elim (Bool-cases s.once) [
      | inl e ↦ rw e (record { up_carried = i.up_carried; down_carried = i.down_carried })
      | inr e ↦ rw e (record { up_carried = i.up_carried; down_carried = i.down_carried })
    ]
    Step-IsHandling (cancels s going) i = record {
      up_carried = i.up_carried;
      down_carried = i.down_carried;
    }
    Step-IsHandling (returns s a b) i = record {
      up_carried = i.up_carried;
      down_carried = i.down_carried;
    }
    Step-IsHandling (times_out s forced) i = record {
      up_carried = i.up_carried;
      down_carried = i.down_carried;
    }

    keeps_reaching :
        {s t : Handling W L}
        → Reach up down compress s t
        → IsHandling compress w l s
        → IsHandling compress w l t
    keeps_reaching (here s) i = i
    keeps_reaching (next st r) i = keeps_reaching r (Step-IsHandling st i)

  -- In every order of the steps of handleChannel, what has been read from one side stands on the
  -- other, whole and in order, as long as no write there has failed: towards the server as frames
  -- that decode to it if compression was negotiated, else as it is; on writers that take as many
  -- bytes off the front of a slice as they say, and with a deflate that an inflate undoes.
  pub Reach-IsHandling :
      (compress has_flate : Bool) (w : W) (l : L) {t : Handling W L}
      → Reach up down compress (fresh_handling has_flate w l) t
      → IsHandling compress w l t
  unfolding fresh_handling
  Reach-IsHandling compress has_flate w l r = keeps_reaching r (record {
    up_carried = λ h. IsCarried-nil compress w;
    down_carried = λ h. sym (append-nil (arrived l));
  })
