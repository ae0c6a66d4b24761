-- ===== src/Bytes/Limit.antt =====
-- Where FormatBytes stops working.
use nssh.Base.{ℕ, suc, ◌+◌, ◌*◌, ◌/◌, ◌^◌, ◌<◌, ◌≡◌, refl, sym, ap, ◌∙◌, arith, Bool, true, false}
use mathlib.Core.Bool.{false≢true}
use nssh.Base.{ltb, lt→ltb, leb, Bool-cases, inl, inr}
use nssh.Bytes.{scale, Format, plain, panics, scaled, format_bytes}

abbrev pub is_panic : Format → Bool
is_panic plain = false
is_panic panics = true
is_panic (scaled div unit) = false

round :
    (f g n div exp : ℕ)
    → (ltb n 1024 ≡ false
        → scale f (n / 1024) (div * 1024) (exp + 1) ≡ scale g (n / 1024) (div * 1024) (exp + 1))
    → scale (suc f) n div exp ≡ scale (suc g) n div exp
unfolding scale
round f g n div exp h = elim (Bool-cases (ltb n 1024)) [ inl e ↦ rw e refl | inr e ↦ rw e (h e) ]

-- Six rounds are enough for an int64, and more change nothing.
pub scale_ends : (fuel n div exp : ℕ) → n < 2 ^ 53 → scale (fuel + 6) n div exp ≡ scale 6 n div exp
scale_ends fuel n div exp k =
    ap (λ f. scale f n div exp) six_more
    ∙ round (suc (suc (suc (suc (suc fuel))))) 5 n div exp λ a.
      round (suc (suc (suc (suc fuel)))) 4 (n / 1024) _ _ λ b.
        round (suc (suc (suc fuel))) 3 (n / 1024 / 1024) _ _ λ c.
          round (suc (suc fuel)) 2 (n / 1024 / 1024 / 1024) _ _ λ d.
            round (suc fuel) 1 (n / 1024 / 1024 / 1024 / 1024) _ _ λ e.
              round fuel 0 (n / 1024 / 1024 / 1024 / 1024 / 1024) _ _ λ f. absurd (
                false≢true
                  (sym f ∙ lt→ltb (n / 1024 / 1024 / 1024 / 1024 / 1024) 1024 (omega arith)))
  where
    six_more : fuel + 6 ≡ suc (suc (suc (suc (suc (suc fuel)))))
    six_more = omega arith

-- FormatBytes of a number of bytes that fits an int64 panics exactly from 2^60 bytes on.
pub format_bytes_panics :
    (bytes : ℕ) → bytes < 2 ^ 63 → is_panic (format_bytes bytes) ≡ leb (2 ^ 60) bytes
unfolding format_bytes scale
format_bytes_panics bytes h = ground arith
