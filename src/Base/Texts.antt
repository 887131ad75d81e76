-- ===== src/Base/Texts.antt =====
-- The string functions of JavaScript that the program calls. Lower case is that of ASCII.
use Prim.Native.Nat.{ℕ, zero, suc}
use mathlib.Core.Option.{Option, none, some}
use Prim.Native.Char.{Char, code}
use Prim.Native.String
use Prim.Native.String.{String}
use mathlib.Core.Path.{◌≡◌, refl}
use mathlib.Core.Bool.{Bool, false, not, ◌&&◌, ◌||◌}
use mathlib.Core.List.{List, [], ◌∷◌}
use text.Mathlib.Text.{starts_with, ◌==◌ as str_eq}
use jabr.Base.Tests.{if◌then◌else◌, leb, ◌==◌}
use jabr.Base.Lists.{any}

-- the letters that `toLowerCase` changes, with what it makes of them
abbrev lower_table : List (Char × Char)
lower_table =
    ("A", "a")
    ∷ ("B", "b")
    ∷ ("C", "c")
    ∷ ("D", "d")
    ∷ ("E", "e")
    ∷ ("F", "f")
    ∷ ("G", "g")
    ∷ ("H", "h")
    ∷ ("I", "i")
    ∷ ("J", "j")
    ∷ ("K", "k")
    ∷ ("L", "l")
    ∷ ("M", "m")
    ∷ ("N", "n")
    ∷ ("O", "o")
    ∷ ("P", "p")
    ∷ ("Q", "q")
    ∷ ("R", "r")
    ∷ ("S", "s")
    ∷ ("T", "t")
    ∷ ("U", "u")
    ∷ ("V", "v")
    ∷ ("W", "w")
    ∷ ("X", "x")
    ∷ ("Y", "y")
    ∷ ("Z", "z")
    ∷ []

lower_from : List (Char × Char) → Char → Char
lower_from [] c = c
lower_from ((upper, lower) ∷ table) c = if code c == code upper then lower else lower_from table c

-- `s.toLowerCase()`
unfoldable pub to_lower_case : String → String
unfolding lower_from
to_lower_case String.[] = String.[]
to_lower_case (String.◌∷◌ c s) = String.◌∷◌ (lower_from lower_table c) (to_lower_case s)

-- `s.includes(t)`
unfoldable pub includes_text : String → String → Bool
includes_text String.[] t = starts_with String.[] t
includes_text (String.◌∷◌ c s) t = starts_with (String.◌∷◌ c s) t || includes_text s t

-- `xs.includes(x)`
abbrev pub includes : List String → String → Bool
includes xs x = any (λ y. str_eq y x) xs

is_word_char : ℕ → Bool
is_word_char c = (leb b'a' c && leb c b'z') || (leb b'0' c && leb c b'9')

abbrev pub push : String → Char → String
push s c = String.◌++◌ s (String.◌∷◌ c String.[])

split_from : String → String → List String
split_from word String.[] = word ∷ []
split_from word (String.◌∷◌ c s) =
    let longer = split_from (push word c) s in
    let closed = word ∷ split_from "" s in if is_word_char (code c) then longer else closed

-- `text.split(/[^a-z0-9]+/)`; a run of separators gives empty words besides, which callers drop
unfoldable pub split_words : String → List String
unfolding split_from is_word_char
split_words text = split_from "" text

split_test : split_words "fix the-bug" ≡ "fix" ∷ "the" ∷ "bug" ∷ []
unfolding split_words
split_test = refl

lower_test : to_lower_case "Http://A" ≡ "http://a"
unfolding to_lower_case
lower_test = refl

-- `text.slice(0, n)`
unfoldable pub first_chars : ℕ → String → String
first_chars n String.[] = String.[]
first_chars zero (String.◌∷◌ c s) = String.[]
first_chars (suc n) (String.◌∷◌ c s) = String.◌∷◌ c (first_chars n s)

-- `text.slice(n)`
unfoldable pub skip_chars : ℕ → String → String
skip_chars zero s = s
skip_chars (suc n) String.[] = String.[]
skip_chars (suc n) (String.◌∷◌ c s) = skip_chars n s

-- the text from the first occurrence of `t` on: `text.slice(text.indexOf(t))`
unfoldable pub from_first : String → String → Option String
from_first t String.[] = if starts_with String.[] t then some String.[] else none
from_first t (String.◌∷◌ c s) =
    let later = from_first t s in
    if starts_with (String.◌∷◌ c s) t then some (String.◌∷◌ c s) else later

-- `parts.join(separator)`
unfoldable pub join : String → List String → String
join separator [] = ""
join separator (x ∷ []) = x
join separator (x ∷ y ∷ rest) = String.◌++◌ x (String.◌++◌ separator (join separator (y ∷ rest)))

-- the white space that `trim` removes
unfoldable pub is_space : ℕ → Bool
is_space c =
    (leb 9 c && leb c 13)
    || c == 32
    || c == 160
    || c == 5760
    || (leb 8192 c && leb c 8202)
    || c == 8232
    || c == 8233
    || c == 8239
    || c == 8287
    || c == 12288
    || c == 65279

trim_start : String → String
trim_start String.[] = String.[]
trim_start (String.◌∷◌ c s) =
    let shorter = trim_start s in if is_space (code c) then shorter else String.◌∷◌ c s

trim_end : String → String
trim_end String.[] = String.[]
trim_end (String.◌∷◌ c s) =
    let rest = trim_end s in
    if is_space (code c) && str_eq rest "" then String.[] else String.◌∷◌ c rest

-- `text.trim()`
unfoldable pub trim : String → String
unfolding trim_start trim_end is_space
trim text = trim_end (trim_start text)

trim_test : trim "  a b " ≡ "a b"
unfolding trim
trim_test = refl

from_first_test : from_first "b" "abcb" ≡ some "bcb"
unfolding from_first
from_first_test = refl

unfoldable pub split_on_from : ℕ → String → String → List String
split_on_from separator part String.[] = part ∷ []
split_on_from separator part (String.◌∷◌ c s) =
    let longer = split_on_from separator (push part c) s in
    let closed = part ∷ split_on_from separator "" s in
    if code c == separator then closed else longer

-- `text.split(separator)` for a separator of one character
unfoldable pub split_on : ℕ → String → List String
unfolding split_on_from
split_on separator text = split_on_from separator "" text

-- what `.` of a regular expression does not match
is_line_break : ℕ → Bool
is_line_break c = c == 10 || c == 13 || c == 8232 || c == 8233

pub has_line_break : String → Bool
unfolding is_line_break
has_line_break String.[] = false
has_line_break (String.◌∷◌ c s) = is_line_break (code c) || has_line_break s

-- `text.replace(/MARKER.*$/, "")`: the first marker that no line break follows, and all behind it
unfoldable pub strip_from : String → String → String
unfolding has_line_break
strip_from marker String.[] = String.[]
strip_from marker (String.◌∷◌ c s) =
    let kept = String.◌∷◌ c (strip_from marker s) in
    if starts_with (String.◌∷◌ c s) marker && not (has_line_break s) then String.[] else kept
