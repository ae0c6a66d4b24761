-- ===== src/Base/Text.antt =====
-- Go strings as native strings, and the first place of a separator in one.
use Prim.Native.Nat.{ℕ}
use Prim.Native.Char.{Char, code}
pub use Prim.Native.String.{String, ◌++◌ as ◌<>◌}
use mathlib.Core.Bool.{Bool, true, ◌&&◌, not}
use mathlib.Core.Option.{Option, none, some}
use mathlib.Core.List.{List, [], ◌∷◌}
use text.Mathlib.Text.{◌==◌}
use nssh.Base.Tests.{if◌then◌else◌, Bool-cases}
use nssh.Base.Tests

abbrev pub str_eq : String → String → Bool
str_eq s t = s == t

abbrev pub is_char : ℕ → Char → Bool
is_char k c = nssh.Base.Tests.◌==◌ (code c) k

-- No character of the text has the code `k`.
unfoldable pub lacks : ℕ → String → Bool
lacks k String.[] = true
lacks k (String.◌∷◌ c s) = not (is_char k c) && lacks k s

-- strings.SplitN(s, sep, 2): the text before the first separator, and the text behind it if there is
-- one.
unfoldable pub split_at : ℕ → String → String × Option String
split_at k String.[] = ("", none)
split_at k (String.◌∷◌ c s) =
    let (before, behind) = split_at k s in
    if is_char k c then ("", some s) else (String.◌∷◌ c before, behind)

-- strings.Split(s, sep) for a separator of one character: the first part, and the others.
unfoldable pub split_all : ℕ → String → String × List String
split_all k String.[] = ("", [])
split_all k (String.◌∷◌ c s) =
    let (part, parts) = split_all k s in
    if is_char k c then ("", part ∷ parts) else (String.◌∷◌ c part, parts)

abbrev pub all_chars : (ℕ → Bool) → String → Bool
all_chars p String.[] = true
all_chars p (String.◌∷◌ c s) = p (code c) && all_chars p s
