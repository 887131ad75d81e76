-- ===== src/Wire/Roundtrip/Entries.antt =====
-- The loops over entries of src/adapters/a2a/serialize.ts, one after the other: what a serializer
-- writes entry by entry is read back entry by entry.
use jabr.Base.{
  ◌≡◌, refl, ap, ◌∙◌, String, Option, some, [], ◌∷◌, ◌++◌, false, inl, inr, Bool-cases, Map, insert,
  values, All, IsNew, HasDistinctKeys, eq_iff, arith, str_eq,
}
use mathlib.Core.List.{append_assoc, append-nil}
use jabr.Wire.{Value, Fields, end, field, set, Parsed, parsed}
use jabr.Wire.Entries.{read_entries, write_entries, write_all}

module _ {ℓ} {V : Type ℓ} where
  -- the entries of a map as those of an object
  unfoldable pub fields_of : (V → Value) → Map V → Fields
  fields_of serialize [] = end
  fields_of serialize ((key, v) ∷ rest) = field key (serialize v) (fields_of serialize rest)

  set-fields_of :
      (serialize : V → Value) (key : String) (v : V) (m : Map V)
      → set key (serialize v) (fields_of serialize m) ≡ fields_of serialize (insert key v m)
  unfolding set fields_of insert
  set-fields_of serialize key v [] = refl
  set-fields_of serialize key v ((name, old) ∷ rest) = elim (Bool-cases (str_eq name key)) [
    | inl e ↦ rw e refl
    | inr e ↦ rw (e, set-fields_of serialize key v rest)
  ]

  -- the entries put into a map one by one
  unfoldable pub inserted : Map V → Map V → Map V
  inserted [] result = result
  inserted ((key, v) ∷ rest) result = inserted rest (insert key v result)

  write_all-fields_of :
      (serialize : V → Value) (m result : Map V)
      → write_all serialize m (fields_of serialize result) ≡ fields_of serialize (inserted m result)
  unfolding write_all inserted
  write_all-fields_of serialize [] result = refl
  write_all-fields_of serialize ((key, v) ∷ rest) result =
      rw (set-fields_of serialize key v result)
        (write_all-fields_of serialize rest (insert key v result))

  read_entries-fields_of :
      (parse : Value → Parsed (Option V)) (serialize : V → Value)
      → ((v : V) → parse (serialize v) ≡ parsed (some v))
      → (m result : Map V)
      → read_entries parse (fields_of serialize m) result ≡ parsed (inserted m result)
  unfolding read_entries fields_of inserted
  read_entries-fields_of parse serialize back [] result = refl
  read_entries-fields_of parse serialize back ((key, v) ∷ rest) result =
      rw (back v) (read_entries-fields_of parse serialize back rest (insert key v result))

  key_apart :
      (name key : String) (v : V) (before rest : Map V)
      → IsNew name (before ++ (key, v) ∷ rest)
      → str_eq name key ≡ false
  key_apart name key v [] rest h = ground (arith, h.0, eq_iff key name, eq_iff name key)
  key_apart name key v ((j, w) ∷ before) rest h = key_apart name key v before rest h.1

  insert_new :
      (key : String) (v : V) (result rest : Map V)
      → HasDistinctKeys (result ++ (key, v) ∷ rest)
      → insert key v result ≡ result ++ (key, v) ∷ []
  unfolding insert
  insert_new key v [] rest h = refl
  insert_new key v ((name, old) ∷ result) rest h =
      rw (key_apart name key v result rest h.0, insert_new key v result rest h.1)

  inserted_distinct :
      (m result : Map V) → HasDistinctKeys (result ++ m) → inserted m result ≡ result ++ m
  unfolding inserted
  inserted_distinct [] result h = rw append-nil
  inserted_distinct ((key, v) ∷ rest) result h = rw (insert_new key v result rest h) (
      inserted_distinct rest (result ++ (key, v) ∷ []) (rw append_assoc h)
      ∙ append_assoc result ((key, v) ∷ []) rest)

  write_all_distinct :
      (serialize : V → Value) (m : Map V)
      → HasDistinctKeys m
      → write_all serialize m end ≡ fields_of serialize m
  unfolding fields_of
  write_all_distinct serialize m h =
      write_all-fields_of serialize m [] ∙ rw (inserted_distinct m [] h)

  -- Where the keys are distinct, as an object's are, the entries come back.
  pub read_entries-write_all :
      (parse : Value → Parsed (Option V)) (serialize : V → Value)
      → ((v : V) → parse (serialize v) ≡ parsed (some v))
      → (m : Map V) → HasDistinctKeys m
      → read_entries parse (write_all serialize m end) [] ≡ parsed m
  read_entries-write_all parse serialize back m h =
      rw (write_all_distinct serialize m h)
        (read_entries-fields_of parse serialize back m [] ∙ ap parsed (inserted_distinct m [] h))

  -- A loop that throws for no entry is the loop that cannot throw.
  pub write_entries-write_all :
      (serialize : V → Parsed Value) (wire : V → Value) (m : Map V) (out : Fields)
      → All (λ v. serialize v ≡ parsed (wire v)) (values m)
      → write_entries serialize m out ≡ parsed (write_all wire m out)
  unfolding write_entries write_all values
  write_entries-write_all serialize wire [] out h = refl
  write_entries-write_all serialize wire ((key, v) ∷ rest) out h =
      rw (h.0) (write_entries-write_all serialize wire rest (set key (wire v) out) h.1)
