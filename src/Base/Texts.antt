-- ===== src/Base/Texts.antt =====
-- JavaScript strings as lists of UTF-16 code units, with `trim` and `===`.
use Prim.Native.Nat.{ℕ, ◌+◌}
use Prim.Native.Char.{code}
use Prim.Native.String.{String}
use mathlib.Core.Path.{◌≡◌, refl}
use mathlib.Core.Bool.{Bool, true, false, ◌&&◌, ◌||◌}
use mathlib.Core.Logic.{◌↔◌}
use mathlib.Core.Option.{Option, none, some}
use mathlib.Core.List.{List, [], ◌∷◌, reverse}
use native.Mathlib.Omega.{arith}
use ubot_ai_agent.Base.Tests.{◌==◌, leb, if◌then◌else◌}

abbrev pub Text : Type 0
Text = List ℕ

-- A literal whose characters are all in the basic plane.
abbrev pub codes : String → Text
codes String.[] = []
codes (String.◌∷◌ c s) = code c ∷ codes s

-- `===` on strings.
abbrev pub same : Text → Text → Bool
same [] [] = true
same [] (_ ∷ _) = false
same (_ ∷ _) [] = false
same (a ∷ s) (b ∷ t) = a == b && same s t

pub same→eq : (a b : Text) → same a b ≡ true → a ≡ b
same→eq [] [] h = refl
same→eq [] (_ ∷ _) h = cc
same→eq (_ ∷ _) [] h = cc
same→eq (a ∷ s) (b ∷ t) h = ground (arith, same→eq s t)

pub same_refl : (a : Text) → same a a ≡ true
same_refl [] = refl
same_refl (a ∷ s) = ground (arith, same_refl s)

pub same_iff : (a b : Text) → (same a b ≡ true) ↔ (a ≡ b)
same_iff a b = (same→eq a b, λ e. rw e (same_refl b))

-- `===` between two values that may be null.
abbrev pub same? : Option Text → Option Text → Bool
same? none none = true
same? none (some _) = false
same? (some _) none = false
same? (some a) (some b) = same a b

-- WhiteSpace and LineTerminator, which `trim` strips and `\s` matches.
abbrev pub is_space : ℕ → Bool
is_space c =
    (leb 9 c && leb c 13)
    || c == 32
    || c == 160
    || c == 5760
    || (leb 8192 c && leb c 8202)
    || c == 8232
    || c == 8233
    || c == 8239
    || c == 8287
    || c == 12288
    || c == 65279

unfoldable pub trim_start : Text → Text
trim_start [] = []
trim_start (c ∷ s) = if is_space c then trim_start s else c ∷ s

unfoldable pub trim_end : Text → Text
unfolding trim_start
trim_end s = reverse (trim_start (reverse s))

-- `String.prototype.trim`.
unfoldable pub trim : Text → Text
unfolding trim_end
trim s = trim_end (trim_start s)

-- `!text`.
abbrev pub is_empty : Text → Bool
is_empty [] = true
is_empty (_ ∷ _) = false

unfoldable pub starts_with : Text → Text → Bool
starts_with s [] = true
starts_with [] (_ ∷ _) = false
starts_with (c ∷ s) (d ∷ p) = c == d && starts_with s p

-- `toLowerCase` on the letters of ASCII.
abbrev pub lower_unit : ℕ → ℕ
lower_unit c = if leb 65 c && leb c 90 then c + 32 else c

unfoldable pub lower : Text → Text
lower [] = []
lower (c ∷ s) = lower_unit c ∷ lower s

abbrev pub is_digit : ℕ → Bool
is_digit c = leb 48 c && leb c 57

-- `array.includes(text)`, and `set.has(text)`.
abbrev pub includes : List Text → Text → Bool
includes [] t = false
includes (s ∷ ss) t = same s t || includes ss t

-- `[...new Set(texts)]` behind what the set holds already.
abbrev pub distinct_from : List Text → List Text → List Text
distinct_from seen [] = []
distinct_from seen (t ∷ ts) =
    let again = distinct_from seen ts in
    let first = distinct_from (t ∷ seen) ts in if includes seen t then again else t ∷ first

abbrev pub distinct : List Text → List Text
distinct = distinct_from []
