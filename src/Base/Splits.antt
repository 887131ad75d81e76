-- ===== src/Base/Splits.antt =====
-- Splitting a text at white space, and at a separator that its parts do not have.
use Prim.Native.Nat.{ℕ}
use mathlib.Core.Path.{◌≡◌, refl}
use mathlib.Core.Bool.{Bool, true, false, ◌||◌}
use mathlib.Core.List.{List, [], ◌∷◌}
use Prim.Native.Char.{Char, code}
use Prim.Native.String
use Prim.Native.String.{String}
use native.Mathlib.Omega.{arith}
use text.Mathlib.TextLemmas.{nil-append, cons-append, append-nil, append_assoc}
use jabr.Base.Tests.{if◌then◌else◌, ◌==◌}
use jabr.Base.Texts.{push, split_on_from, is_space}

split_spaces_from : String → String → List String
split_spaces_from word String.[] = word ∷ []
split_spaces_from word (String.◌∷◌ c s) =
    let longer = split_spaces_from (push word c) s in
    let closed = word ∷ split_spaces_from "" s in if is_space (code c) then closed else longer

-- `text.split(/\s+/)`; a run of white space gives empty words besides, which callers drop
unfoldable pub split_spaces : String → List String
unfolding split_spaces_from is_space
split_spaces text = split_spaces_from "" text

unfoldable pub has_char : ℕ → String → Bool
has_char c String.[] = false
has_char c (String.◌∷◌ d s) = code d == c || has_char c s

shift :
    (part : String) (c : Char) (a : String)
    → String.◌++◌ (push part c) a ≡ String.◌++◌ part (String.◌∷◌ c a)
shift part c a =
    rw (append_assoc part (String.◌∷◌ c String.[]) a, cons-append c String.[] a, nil-append a) refl

pub split_on_from-append :
    (separator : ℕ) (d : Char) (part a rest : String)
    → (code d == separator) ≡ true
    → has_char separator a ≡ false
    → split_on_from separator part (String.◌++◌ a (String.◌∷◌ d rest))
      ≡ String.◌++◌ part a ∷ split_on_from separator "" rest
unfolding split_on_from has_char
split_on_from-append separator d part String.[] rest here lacks =
    rw (nil-append (String.◌∷◌ d rest), here, append-nil part) refl
split_on_from-append separator d part (String.◌∷◌ c a) rest here lacks =
    let ih = split_on_from-append separator d (push part c) a rest here in
    rw (cons-append c a (String.◌∷◌ d rest)) (ground (arith, lacks, ih, shift part c a))

pub split_on_from_last :
    (separator : ℕ) (part a : String)
    → has_char separator a ≡ false
    → split_on_from separator part a ≡ String.◌++◌ part a ∷ []
unfolding split_on_from has_char
split_on_from_last separator part String.[] lacks = rw (append-nil part) refl
split_on_from_last separator part (String.◌∷◌ c a) lacks =
    ground (arith, lacks, split_on_from_last separator (push part c) a, shift part c a)

split_pairs_from : String → String → List String
split_pairs_from part String.[] = part ∷ []
split_pairs_from part (String.◌∷◌ c String.[]) = push part c ∷ []
split_pairs_from part (String.◌∷◌ c (String.◌∷◌ d s)) =
    let closed = part ∷ split_pairs_from "" s in
    let longer = split_pairs_from (push part c) (String.◌∷◌ d s) in
    if code c == b'\n' then (if code d == b'\n' then closed else longer) else longer

-- `text.split("\n\n")`
unfoldable pub split_paragraphs : String → List String
unfolding split_pairs_from
split_paragraphs text = split_pairs_from "" text

split_paragraphs_test : split_paragraphs "a\n\n\nb" ≡ "a" ∷ "\nb" ∷ []
unfolding split_paragraphs split_pairs_from
split_paragraphs_test = refl
