-- ===== src/Base/Text.antt =====
-- Python's texts: strip, slices, splitlines, `in` and the truth of a text.
use Prim.Native.Nat.{ℕ, zero, suc}
use Prim.Native.Char.{code}
use Prim.Native.String.{String, ◌++◌}
use mathlib.Core.List.{List, [], ◌∷◌}
use mathlib.Core.Bool.{Bool, true, false, ◌&&◌, ◌||◌}
use mathlib.Core.Option.{Option, none, some}
use text.Mathlib.Text.{starts_with}
use code_fixer.Base.Tests.{leb, text_eq, number_eq, ◌==◌, if◌then◌else◌}

abbrev pub between : ℕ → ℕ → ℕ → Bool
between low high c = leb low c && leb c high

-- str.isspace of one character
abbrev pub is_space : ℕ → Bool
is_space c =
    between 9 13 c
    || between 28 32 c
    || c == 133
    || c == 160
    || c == 5760
    || between 8192 8202 c
    || c == 8232
    || c == 8233
    || c == 8239
    || c == 8287
    || c == 12288

-- str.lstrip
abbrev pub lstrip : String → String
lstrip String.[] = ""
lstrip (String.◌∷◌ c s) = let rest = lstrip s in if is_space (code c) then rest else String.◌∷◌ c s

-- str.rstrip
abbrev pub rstrip : String → String
rstrip String.[] = ""
rstrip (String.◌∷◌ c s) =
    let rest = rstrip s in if rest == "" && is_space (code c) then "" else String.◌∷◌ c rest

abbrev pub strip : String → String
strip s = rstrip (lstrip s)

-- s[:n]
abbrev pub prefix : ℕ → String → String
prefix zero s = ""
prefix (suc n) String.[] = ""
prefix (suc n) (String.◌∷◌ c s) = String.◌∷◌ c (prefix n s)

-- part in s
abbrev pub is_in : String → String → Bool
is_in part String.[] = part == ""
is_in part (String.◌∷◌ c s) = starts_with (String.◌∷◌ c s) part || is_in part s

-- The characters that end a line for str.splitlines.
abbrev pub ends_line : ℕ → Bool
ends_line c = between 10 13 c || between 28 30 c || c == 133 || c == 8232 || c == 8233

-- s.splitlines()[-1] of a text that is not empty and does not end in white space.
abbrev pub last_line : String → String
last_line String.[] = ""
last_line (String.◌∷◌ c s) =
    let rest = last_line s in
    if has_break s then rest else if ends_line (code c) then s else String.◌∷◌ c s
  where
    has_break : String → Bool
    has_break String.[] = false
    has_break (String.◌∷◌ d t) = ends_line (code d) || has_break t

-- a or b, for texts and None
abbrev pub or_text : Option String → String → String
or_text none b = b
or_text (some a) b = if a == "" then b else a

-- a + b
abbrev pub concat : String → String → String
concat a b = a ++ b

-- separator.join(texts)
abbrev pub join : (separator : String) → List String → String
join separator [] = ""
join separator (x ∷ []) = x
join separator (x ∷ y ∷ rest) = concat x (concat separator (join separator (y ∷ rest)))

-- s.replace(c, by) for the character with the code `c`
abbrev pub replace_char : (c : ℕ) (by : String) → String → String
replace_char c by String.[] = ""
replace_char c by (String.◌∷◌ d s) =
    let rest = replace_char c by s in if code d == c then by ++ rest else String.◌∷◌ d rest

-- The first part of a split text grows by a character.
abbrev pub grow : String → List String → List String
grow c [] = c ∷ []
grow c (part ∷ parts) = (c ++ part) ∷ parts

-- s.split(c) for the character with the code `c`
abbrev pub split : (c : ℕ) → String → List String
split c String.[] = "" ∷ []
split c (String.◌∷◌ d s) =
    let rest = split c s in if code d == c then "" ∷ rest else grow (String.◌∷◌ d "") rest

-- s < t, by the codes of the characters
abbrev pub text_ltb : String → String → Bool
text_ltb String.[] String.[] = false
text_ltb String.[] (String.◌∷◌ d t) = true
text_ltb (String.◌∷◌ c s) String.[] = false
text_ltb (String.◌∷◌ c s) (String.◌∷◌ d t) =
    let rest = text_ltb s t in if code c == code d then rest else leb (code c) (code d)
