-- ===== src/Base/Keys.antt =====
-- A `Map` holds each key once: the invariant of the association lists, and lookups through loops.
use Prim.Native.String.{String}
use mathlib.Core.Path.{◌≡◌, refl}
use mathlib.Core.Logic.{inl, inr}
use mathlib.Core.Option.{Option, none, some}
use mathlib.Core.Bool.{Bool, false}
use mathlib.Core.List.{[], ◌∷◌}
use native.Mathlib.Omega.{arith}
use text.Mathlib.Text.{◌==◌}
use text.Mathlib.TextEquality.{eq_iff}
use jabr.Base.Tests.{if◌then◌else◌, Bool-cases}
use jabr.Base.Lists.{All}
use text.Mathlib.TextPositions.{eq_refl}
use jabr.Base.Maps.{Map, lookup, insert, map_values, filter_entries, remove}

abbrev pub IsNew {ℓ} : {V : Type ℓ} → String → Map V → Type 0
IsNew k [] = Unit
IsNew k ((j, v) ∷ m) = ((j == k) ≡ false) × IsNew k m

abbrev pub HasDistinctKeys {ℓ} : {V : Type ℓ} → Map V → Type 0
HasDistinctKeys [] = Unit
HasDistinctKeys ((j, v) ∷ m) = IsNew j m × HasDistinctKeys m

-- `some v` where a test on it passes
abbrev pub keep_if {ℓ} : {A : Type ℓ} → (A → Bool) → Option A → Option A
keep_if test none = none
keep_if test (some a) = if test a then some a else none

ne_comm : (k j : String) → (k == j) ≡ false → (j == k) ≡ false
ne_comm k j h = ground (arith, eq_iff k j, eq_iff j k)

module _ {ℓ} {V : Type ℓ} where
  pub lookup_of_IsNew : (k : String) (m : Map V) → IsNew k m → lookup k m ≡ none
  unfolding lookup
  lookup_of_IsNew k [] h = refl
  lookup_of_IsNew k ((j, v) ∷ m) h = rw (h.0) (lookup_of_IsNew k m h.1)

  IsNew-insert :
      (k j : String) (v : V) (m : Map V) → (j == k) ≡ false → IsNew k m → IsNew k (insert j v m)
  unfolding insert
  IsNew-insert k j v [] e h = (e, tt)
  IsNew-insert k j v ((i, w) ∷ m) e h = elim (Bool-cases (i == j)) [
    | inl same ↦ rw same h
    | inr differs ↦ rw differs (h.0, IsNew-insert k j v m e h.1)
  ]

  pub insert-HasDistinctKeys :
      (k : String) (v : V) (m : Map V) → HasDistinctKeys m → HasDistinctKeys (insert k v m)
  unfolding insert
  insert-HasDistinctKeys k v [] h = (tt, tt)
  insert-HasDistinctKeys k v ((j, w) ∷ m) h = elim (Bool-cases (j == k)) [
    | inl same ↦ rw same h
    | inr differs ↦
        rw differs
          (IsNew-insert j k v m (ne_comm j k differs) h.0, insert-HasDistinctKeys k v m h.1)
  ]

  IsNew-filter_entries :
      (k : String) (keep : String → V → Bool) (m : Map V)
      → IsNew k m
      → IsNew k (filter_entries keep m)
  unfolding filter_entries
  IsNew-filter_entries k keep [] h = tt
  IsNew-filter_entries k keep ((j, v) ∷ m) h = elim (Bool-cases (keep j v)) [
    | inl e ↦ rw e (h.0, IsNew-filter_entries k keep m h.1)
    | inr e ↦ rw e (IsNew-filter_entries k keep m h.1)
  ]

  pub filter_entries-HasDistinctKeys :
      (keep : String → V → Bool) (m : Map V)
      → HasDistinctKeys m
      → HasDistinctKeys (filter_entries keep m)
  unfolding filter_entries
  filter_entries-HasDistinctKeys keep [] h = tt
  filter_entries-HasDistinctKeys keep ((j, v) ∷ m) h = elim (Bool-cases (keep j v)) [
    | inl e ↦ rw e (IsNew-filter_entries j keep m h.0, filter_entries-HasDistinctKeys keep m h.1)
    | inr e ↦ rw e (filter_entries-HasDistinctKeys keep m h.1)
  ]

  pub lookup-filter_entries :
      (k : String) (keep : V → Bool) (m : Map V)
      → HasDistinctKeys m
      → lookup k (filter_entries (λ j v. keep v) m) ≡ keep_if keep (lookup k m)
  unfolding lookup filter_entries
  lookup-filter_entries k keep [] h = refl
  lookup-filter_entries k keep ((j, v) ∷ m) h =
      ground (arith, eq_iff j k, lookup_of_IsNew j m h.0, lookup-filter_entries k keep m h.1)

module _ {ℓ} {V : Type ℓ} where
  IsNew-remove : (k j : String) (m : Map V) → IsNew k m → IsNew k (remove j m)
  unfolding remove
  IsNew-remove k j [] h = tt
  IsNew-remove k j ((i, w) ∷ m) h = elim (Bool-cases (i == j)) [
    | inl gone ↦ rw gone (IsNew-remove k j m h.1)
    | inr kept ↦ rw kept (h.0, IsNew-remove k j m h.1)
  ]

  pub remove-HasDistinctKeys :
      (k : String) (m : Map V) → HasDistinctKeys m → HasDistinctKeys (remove k m)
  unfolding remove
  remove-HasDistinctKeys k [] h = tt
  remove-HasDistinctKeys k ((j, w) ∷ m) h = elim (Bool-cases (j == k)) [
    | inl gone ↦ rw gone (remove-HasDistinctKeys k m h.1)
    | inr kept ↦ rw kept (IsNew-remove j k m h.0, remove-HasDistinctKeys k m h.1)
  ]

module _ {ℓ κ} {V : Type ℓ} {W : Type κ} where
  IsNew-map_values : (f : V → W) (k : String) (m : Map V) → IsNew k m → IsNew k (map_values f m)
  unfolding map_values
  IsNew-map_values f k [] h = tt
  IsNew-map_values f k ((j, v) ∷ m) h = (h.0, IsNew-map_values f k m h.1)

  pub map_values-HasDistinctKeys :
      (f : V → W) (m : Map V) → HasDistinctKeys m → HasDistinctKeys (map_values f m)
  unfolding map_values
  map_values-HasDistinctKeys f [] h = tt
  map_values-HasDistinctKeys f ((j, v) ∷ m) h =
      (IsNew-map_values f j m h.0, map_values-HasDistinctKeys f m h.1)

module _ {ℓ} {V : Type ℓ} where
  entries-cons :
      (j : String) (v : V) (m rest : Map V)
      → IsNew j rest
      → All (λ e. lookup e.0 m ≡ some e.1) rest
      → All (λ e. lookup e.0 ((j, v) ∷ m) ≡ some e.1) rest
  unfolding lookup
  entries-cons j v m [] new h = tt
  entries-cons j v m ((i, w) ∷ rest) new h =
      (rw (ne_comm i j new.0) h.0, entries-cons j v m rest new.1 h.1)

  -- Each entry is what a lookup of its key finds.
  pub lookup-entries : (m : Map V) → HasDistinctKeys m → All (λ e. lookup e.0 m ≡ some e.1) m
  unfolding lookup
  lookup-entries [] h = tt
  lookup-entries ((j, v) ∷ m) h =
      (rw (eq_refl j) refl, entries-cons j v m m h.0 (lookup-entries m h.1))
