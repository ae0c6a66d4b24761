-- ===== src/Base/Split.antt =====
-- Where the first separator of a text stands.
use Prim.Native.Nat.{ℕ}
use Prim.Native.Char.{Char}
use Prim.Native.String.append
use mathlib.Core.Path.{◌≡◌, refl, ap, ◌∙◌}
use mathlib.Core.Logic.{inl, inr}
use mathlib.Core.Bool.{true}
use mathlib.Core.Option.{some}
use nssh.Base.Tests.{Bool-cases}
use nssh.Base.Text.{String, ◌<>◌, split_at, lacks, is_char}

-- The text before the first separator, and the text behind it.
pub split_at-append :
    (k : ℕ) (c : Char) (s t : String)
    → is_char k c ≡ true
    → lacks k s ≡ true
    → split_at k (s <> String.◌∷◌ c t) ≡ (s, some t)
unfolding split_at lacks
split_at-append k c String.[] t sep h = ap (split_at k) (append.nil (String.◌∷◌ c t)) ∙ rw sep refl
split_at-append k c (String.◌∷◌ x s) t sep h = elim (Bool-cases (is_char k x)) [
  | inl e ↦ cc (rw e at h)
  | inr e ↦
      ap (split_at k) (append.cons x s (String.◌∷◌ c t))
      ∙ rw (e, split_at-append k c s t sep (rw e at h)) refl
]

pub front : (c : Char) (t : String) → String.◌∷◌ c String.[] <> t ≡ String.◌∷◌ c t
front c t = append.cons c String.[] t ∙ ap (λ s. String.◌∷◌ c s) (append.nil t)
