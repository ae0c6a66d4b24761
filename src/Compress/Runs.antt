-- ===== src/Compress/Runs.antt =====
-- Runs of the compressing writer, into a buffer.
use nssh.Base.{
  ℕ, zero, suc, ◌≡◌, refl, sym, ap, ◌∙◌, true, Option, none, some, List, [], ◌∷◌, ◌++◌, arith,
}
use nssh.Base.{length, take_all, Option-cases, inl, inr}
use mathlib.Core.Option
use nssh.Compress.{Sink, new_compress_writer, write_full, write}
use nssh.Compress.Stream.{IsWriter}
use nssh.Compress.Decode.{IsStreamOf, write-IsStreamOf}

abbrev zeros : ℕ → List ℕ
zeros zero = []
zeros (suc n) = 0 ∷ zeros n

-- How many zeros the slice is, if nothing else is in it.
abbrev count_zeros : List ℕ → Option ℕ
count_zeros [] = some 0
count_zeros (zero ∷ b) = elim (count_zeros b) [ none ↦ none | some n ↦ some (suc n) ]
count_zeros (suc x ∷ b) = none

-- The compressor of slices of zeros.
abbrev squeeze : List ℕ → Option (List ℕ)
squeeze b = elim (count_zeros b) [ none ↦ none | some n ↦ some (n ∷ []) ]

abbrev unsqueeze : List ℕ → Option (List ℕ)
unsqueeze [] = none
unsqueeze (n ∷ z) = some (zeros n)

abbrev buffer : Sink (List ℕ)
buffer = record { write = λ b w. (length b, true, w ++ b); deflate = squeeze }

zeros-count_zeros : (b : List ℕ) (n : ℕ) → count_zeros b ≡ some n → zeros n ≡ b
zeros-count_zeros [] n e = ap zeros (sym (Option.some-injective 0 n e))
zeros-count_zeros (zero ∷ b) n e = elim (Option-cases (count_zeros b)) [
  | inl not_zeros ↦ cc (rw not_zeros at e)
  | inr (m, ok) ↦
      ap zeros (sym (Option.some-injective (suc m) n (rw ok at e)))
      ∙ ap (λ t. 0 ∷ t) (zeros-count_zeros b m ok)
]
zeros-count_zeros (suc x ∷ b) n e = cc

unsqueeze-squeeze : (b z : List ℕ) → squeeze b ≡ some z → unsqueeze z ≡ some b
unsqueeze-squeeze b z e = elim (Option-cases (count_zeros b)) [
  | inl not_zeros ↦ cc (rw (not_zeros, squeeze) at e)
  | inr (n, ok) ↦
      ap unsqueeze (sym (Option.some-injective (n ∷ []) z (rw (ok, squeeze) at e)))
      ∙ ap some (zeros-count_zeros b n ok)
]

buffer-IsWriter : IsWriter buffer (λ w. w)
buffer-IsWriter = record {
  grows = λ b w. ap (λ s. w ++ s) (sym (take_all (length b) b (omega arith)));
}

write-IsStreamOf_example :
    ((write buffer (new_compress_writer true) (zeros 300) []).0 ≡ 300)
    × IsStreamOf
        (λ w. w)
        unsqueeze
        (zeros 300)
        []
        (write buffer (new_compress_writer true) (zeros 300) []).3
unfolding write new_compress_writer write_full nssh.Wire.put_uint32
write-IsStreamOf_example =
    write-IsStreamOf buffer (λ w. w) buffer-IsWriter unsqueeze unsqueeze-squeeze
      (new_compress_writer true) (zeros 300) [] refl
