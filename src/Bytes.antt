-- ===== src/Bytes.antt =====
-- FormatBytes (base_core/utils.go), up to the printing of the number.
pub mod Limit
mod Runs
use nssh.Base.{
  ℕ, zero, suc, ◌+◌, ◌*◌, ◌/◌, Option, none, some, List, [], ◌∷◌, ltb, if◌then◌else◌, get_elem?,
}
use nssh.Base.Text.{String}

-- The loop: the divisor and the exponent. Six rounds are enough for an int64.
unfoldable pub scale : ℕ → ℕ → ℕ → ℕ → ℕ × ℕ
scale zero n div exp = (div, exp)
scale (suc fuel) n div exp =
    let further = scale fuel (n / 1024) (div * 1024) (exp + 1) in
    if ltb n 1024 then (div, exp) else further

abbrev pub units : List String
units = "K" ∷ "M" ∷ "G" ∷ "T" ∷ "P" ∷ []

-- `plain` prints the number as it is; `scaled` divides it and appends the unit; `panics` is an index out
-- of range.
pub data Format : Type 0 where
  plain panics : Format
  scaled : ℕ → String → Format

abbrev pub with_unit : ℕ → Option String → Format
with_unit div none = panics
with_unit div (some unit) = scaled div unit

unfoldable pub format_bytes : ℕ → Format
unfolding scale
format_bytes bytes =
    let (div, exp) = scale 6 (bytes / 1024) 1024 0 in
    if ltb bytes 1024 then plain else with_unit div (get_elem? units exp)
