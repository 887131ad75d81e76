-- ===== src/Base/Maps.antt =====
-- The JavaScript `Map` with string keys, in insertion order: `set` on a present key keeps its place.
use Prim.Native.String.{String}
use mathlib.Core.Path.{◌≡◌, refl}
use mathlib.Core.Logic.{◌↔◌}
use mathlib.Core.Option.{Option, none, some}
use mathlib.Core.Bool.{Bool, true, false}
use mathlib.Core.List.{List, [], ◌∷◌}
use native.Mathlib.Omega.{arith}
use text.Mathlib.Text.{◌==◌}
use text.Mathlib.TextEquality.{eq_iff}
use jabr.Base.Tests.{if◌then◌else◌}

abbrev pub Map {ℓ} : Type ℓ → Type ℓ
Map V = List (String × V)

-- the three comparisons of keys that a step of a proof on maps meets
abbrev Compared : String → String → String → Type 0
Compared set asked name =
    (((set == asked) ≡ true) ↔ (set ≡ asked))
    × (((name == set) ≡ true) ↔ (name ≡ set))
    × (((name == asked) ≡ true) ↔ (name ≡ asked))

compared : (set asked name : String) → Compared set asked name
compared set asked name = (eq_iff set asked, eq_iff name set, eq_iff name asked)

module _ {ℓ} {V : Type ℓ} where
  -- `m.get(k)`
  unfoldable pub lookup : String → Map V → Option V
  lookup key [] = none
  lookup key ((name, value) ∷ rest) = if name == key then some value else lookup key rest

  -- `m.set(k, v)`
  unfoldable pub insert : String → V → Map V → Map V
  insert key value [] = (key, value) ∷ []
  insert key value ((name, old) ∷ rest) =
      if name == key then (name, value) ∷ rest else (name, old) ∷ insert key value rest

  -- `m.delete(k)`
  unfoldable pub remove : String → Map V → Map V
  remove k [] = []
  remove k ((j, w) ∷ m) = let rest = remove k m in if j == k then rest else (j, w) ∷ rest

  -- `m.has(k)`
  unfoldable pub has : String → Map V → Bool
  unfolding lookup
  has k m = elim (lookup k m) [ none ↦ false | some v ↦ true ]

  -- the writes of a loop over the entries
  unfoldable pub map_values {κ} : {W : Type κ} → (V → W) → Map V → Map W
  map_values f [] = []
  map_values f ((j, v) ∷ m) = (j, f v) ∷ map_values f m

  -- the deletions of a loop over the entries
  unfoldable pub filter_entries : (String → V → Bool) → Map V → Map V
  filter_entries keep [] = []
  filter_entries keep ((j, v) ∷ m) =
      let rest = filter_entries keep m in if keep j v then (j, v) ∷ rest else rest

  unfoldable pub keys : Map V → List String
  keys [] = []
  keys ((j, v) ∷ m) = j ∷ keys m

  unfoldable pub values : Map V → List V
  values [] = []
  values ((j, v) ∷ m) = v ∷ values m

  pub lookup-insert :
      (set asked : String) (value : V) (entries : Map V)
      → lookup asked (insert set value entries)
        ≡ (if set == asked then some value else lookup asked entries)
  unfolding lookup insert
  lookup-insert set asked value [] = refl
  lookup-insert set asked value ((name, old) ∷ rest) =
      let step = lookup-insert set asked value rest in
      let names = compared set asked name in ground (step, names, arith)

  pub lookup-remove :
      (gone asked : String) (entries : Map V)
      → lookup asked (remove gone entries) ≡ (if gone == asked then none else lookup asked entries)
  unfolding lookup remove
  lookup-remove gone asked [] = ground arith
  lookup-remove gone asked ((name, old) ∷ rest) =
      let step = lookup-remove gone asked rest in
      let names = compared gone asked name in ground (step, names, arith)

-- the option mapped, in the form that the tactics split
abbrev pub map_option {ℓ κ} : {A : Type ℓ} {B : Type κ} → (A → B) → Option A → Option B
map_option f none = none
map_option f (some a) = some (f a)

module _ {ℓ κ} {V : Type ℓ} {W : Type κ} where
  pub lookup-map_values :
      (f : V → W) (k : String) (m : Map V) → lookup k (map_values f m) ≡ map_option f (lookup k m)
  unfolding lookup map_values
  lookup-map_values f k [] = refl
  lookup-map_values f k ((j, v) ∷ m) = ground (arith, lookup-map_values f k m)
