-- ===== src/Common/Text.antt =====
-- Text: template strings, `join`, and the test `value.trim().length > 0`.
use Prim.Native.Nat.{ℕ, zero, suc}
use Prim.Native.Char.{code}
use Prim.Native.String
use Prim.Native.String.{String}
use mathlib.Core.Bool.{Bool, true, false, not, ◌&&◌, ◌||◌}
use mathlib.Core.Option.{Option, none, some}
use mathlib.Core.List.{List, [], ◌∷◌, reverse, map}
use text.Mathlib.Text.{◌==◌ as str_eq}
use ai_knowledge_system.Common.Tests.{ltb, ◌==◌, if◌then◌else◌}
use ai_knowledge_system.Common.Lists.{any, is_empty}

abbrev pub codes : String → List ℕ
codes String.[] = []
codes (String.◌∷◌ c s) = code c ∷ codes s

-- The code points that ECMAScript's `trim` removes (WhiteSpace and LineTerminator).
unfoldable pub is_space : ℕ → Bool
is_space c =
    (ltb 8 c && ltb c 14)
    || c == 0x20
    || c == 0xa0
    || c == 0x1680
    || (ltb 0x1fff c && ltb c 0x200b)
    || c == 0x2028
    || c == 0x2029
    || c == 0x202f
    || c == 0x205f
    || c == 0x3000
    || c == 0xfeff

unfoldable pub drop_space : List ℕ → List ℕ
drop_space [] = []
drop_space (c ∷ s) = if is_space c then drop_space s else c ∷ s

unfoldable pub trim : List ℕ → List ℕ
unfolding drop_space
trim s = reverse (drop_space (reverse (drop_space s)))

-- `value.trim().length > 0`.
unfoldable pub is_text : String → Bool
is_text s = not (is_empty (trim (codes s)))

-- A template string, `${a}${b}…`.
unfoldable pub concat : List String → String
concat [] = ""
concat (s ∷ rest) = String.◌++◌ s (concat rest)

-- `texts.join(separator)`.
unfoldable pub join : String → List String → String
join separator [] = ""
join separator (s ∷ []) = s
join separator (s ∷ t ∷ rest) = String.◌++◌ s (String.◌++◌ separator (join separator (t ∷ rest)))

-- `texts.includes(text)`.
abbrev pub includes : List String → String → Bool
includes texts t = any (λ s. str_eq s t) texts

-- A text where the source tests `if (text)`: the empty text counts as missing.
unfoldable pub truthy : Option String → Option String
truthy none = none
truthy (some text) = if str_eq text "" then none else some text

unfoldable pub trim_start : String → String
trim_start String.[] = ""
trim_start (String.◌∷◌ c s) = if is_space (code c) then trim_start s else String.◌∷◌ c s

-- A character is dropped if it is white space and nothing is left behind it.
unfoldable pub trim_end : String → String
trim_end String.[] = ""
trim_end (String.◌∷◌ c s) = elim (trim_end s) [
  | String.[] ↦ if is_space (code c) then "" else String.◌∷◌ c ""
  | String.◌∷◌ d rest ↦ String.◌∷◌ c (String.◌∷◌ d rest)
]

-- `text.trim()`.
unfoldable pub trim_text : String → String
trim_text s = trim_end (trim_start s)

-- The decimal digits of a number, the last digit first, and those of the number after it.
abbrev next_digits : List ℕ → List ℕ
next_digits [] = 1 ∷ []
next_digits (d ∷ rest) = if d == 9 then 0 ∷ next_digits rest else suc d ∷ rest

abbrev digits : ℕ → List ℕ
digits zero = 0 ∷ []
digits (suc n) = next_digits (digits n)

abbrev digit_text : ℕ → List String → String
digit_text n [] = ""
digit_text zero (digit ∷ rest) = digit
digit_text (suc n) (digit ∷ rest) = digit_text n rest

abbrev digit_texts : List String
digit_texts = "0" ∷ "1" ∷ "2" ∷ "3" ∷ "4" ∷ "5" ∷ "6" ∷ "7" ∷ "8" ∷ "9" ∷ []

-- A natural number in a template string.
unfoldable pub decimal : ℕ → String
unfolding concat
decimal n = concat (map (λ d. digit_text d digit_texts) (reverse (digits n)))

unfoldable pub starts_with : (s start : String) → Bool
starts_with s String.[] = true
starts_with String.[] (String.◌∷◌ d start) = false
starts_with (String.◌∷◌ c s) (String.◌∷◌ d start) = code c == code d && starts_with s start

-- `text.includes(part)`.
unfoldable pub contains_text : (s part : String) → Bool
unfolding starts_with
contains_text String.[] part = starts_with "" part
contains_text (String.◌∷◌ c s) part = starts_with (String.◌∷◌ c s) part || contains_text s part
