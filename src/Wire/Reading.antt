-- ===== src/Wire/Reading.antt =====
-- What a reader finds in an object that a serializer has written field by field.
use jabr.Base.{
  ◌≡◌, refl, ap, ◌∙◌, String, Bool, Option, none, some, List, [], ◌∷◌, if◌then◌else◌, get_or,
  map_option, map, str_eq, eq_iff, eq_refl, false, arith,
}
use jabr.Wire.{
  ℤ, Value, undefined, boolean, number, string, object, Items, nil, cons, Fields, end, field, find,
  set, put, first_of, as_items, as_string, as_number, as_boolean, as_object, filled, filled_list,
  map_items, collect, Parsed, parsed, parse_optional,
}

-- `some value` if it is there, else what was found before
abbrev pub or_else : Option Value → Option Value → Option Value
or_else none other = other
or_else (some value) other = some value

find-set :
    (asked key : String) (value : Value) (out : Fields)
    → find asked (set key value out) ≡ (if str_eq key asked then some value else find asked out)
unfolding find set
find-set asked key value end = refl
find-set asked key value (field name old rest) =
    ground
      (arith, find-set asked key value rest, eq_iff name key, eq_iff key asked, eq_iff name asked)

pub find-put :
    (key : String) (value : Option Value) (out : Fields)
    → find key (put key value out) ≡ or_else value (find key out)
unfolding put
find-put key none out = refl
find-put key (some value) out = rw (find-set key key value out, eq_refl key)

pub find-put_other :
    (asked key : String) (value : Option Value) (out : Fields)
    → str_eq key asked ≡ false
    → find asked (put key value out) ≡ find asked out
unfolding put
find-put_other asked key none out e = refl
find-put_other asked key (some value) out e = rw (find-set asked key value out, e)

pub find-field :
    (key : String) (value : Value) (out : Fields) → find key (field key value out) ≡ some value
unfolding find
find-field key value out = rw (eq_refl key)

pub find-field_other :
    (asked key : String) (value : Value) (out : Fields)
    → str_eq key asked ≡ false
    → find asked (field key value out) ≡ find asked out
unfolding find
find-field_other asked key value out e = rw e

pub find-end : (asked : String) → find asked end ≡ none
unfolding find
find-end asked = refl

pub or_else-none : (value : Option Value) → or_else value none ≡ value
or_else-none none = refl
or_else-none (some value) = refl

pub first_of-none : (value : Option Value) → first_of value none ≡ get_or value undefined
first_of-none none = refl
first_of-none (some value) = refl

pub first_of_self : (value : Option Value) → first_of value value ≡ get_or value undefined
first_of_self none = refl
first_of_self (some value) = refl

pub read_string : (o : Option String) → as_string (get_or (map_option string o) undefined) ≡ o
read_string none = refl
read_string (some text) = refl

pub read_number : (o : Option ℤ) → as_number (get_or (map_option number o) undefined) ≡ o
read_number none = refl
read_number (some n) = refl

pub read_boolean : (o : Option Bool) → as_boolean (get_or (map_option boolean o) undefined) ≡ o
read_boolean none = refl
read_boolean (some b) = refl

pub read_object : (o : Option Fields) → as_object (get_or (map_option object o) undefined) ≡ o
read_object none = refl
read_object (some fields) = refl

pub read_filled : (o : Option Items) → as_items (get_or (filled o) undefined) ≡ get_or o nil
read_filled none = refl
read_filled (some nil) = refl
read_filled (some (cons value rest)) = refl

module _ {ℓ} {A : Type ℓ} where
  pub read_filled_list :
      (serialize : A → Value) (o : Option (List A))
      → as_items (get_or (filled_list serialize o) undefined) ≡ collect serialize (get_or o [])
  unfolding collect
  read_filled_list serialize none = refl
  read_filled_list serialize (some []) = refl
  read_filled_list serialize (some (a ∷ rest)) = refl

  -- Where each element is read back in normal form, so is the list of them.
  pub map_items-collect :
      (parse : Value → Parsed A) (serialize : A → Value) (normal : A → A)
      → ((a : A) → parse (serialize a) ≡ parsed (normal a))
      → (list : List A) → map_items parse (collect serialize list) ≡ parsed (map normal list)
  unfolding map_items collect
  map_items-collect parse serialize normal back [] = refl
  map_items-collect parse serialize normal back (a ∷ rest) =
      rw (back a, map_items-collect parse serialize normal back rest)

module _ {ℓ} {A : Type ℓ} where
  pub parse_optional-normal :
      (parse : Value → Parsed A) (serialize : A → Fields) (normal : A → A)
      → ((a : A) → parse (object (serialize a)) ≡ parsed (normal a))
      → (o : Option A)
      → parse_optional parse (map_option serialize o) ≡ parsed (map_option normal o)
  parse_optional-normal parse serialize normal back none = refl
  parse_optional-normal parse serialize normal back (some a) = rw (back a)

  map_same : (list : List A) → map (λ a. a) list ≡ list
  map_same [] = refl
  map_same (a ∷ rest) = rw (map_same rest)

  map_option_same : (o : Option A) → map_option (λ a. a) o ≡ o
  map_option_same none = refl
  map_option_same (some a) = refl

  -- the two, where an element is read back as it was
  pub map_items_back :
      (parse : Value → Parsed A) (serialize : A → Value)
      → ((a : A) → parse (serialize a) ≡ parsed a)
      → (list : List A) → map_items parse (collect serialize list) ≡ parsed list
  map_items_back parse serialize back list =
      map_items-collect parse serialize (λ a. a) back list ∙ ap parsed (map_same list)

  pub parse_optional_back :
      (parse : Value → Parsed A) (serialize : A → Fields)
      → ((a : A) → parse (object (serialize a)) ≡ parsed a)
      → (o : Option A) → parse_optional parse (map_option serialize o) ≡ parsed o
  parse_optional_back parse serialize back o =
      parse_optional-normal parse serialize (λ a. a) back o ∙ ap parsed (map_option_same o)

pub ruleset reading = (
  first_of-none, first_of_self, find-put, find-put_other, find-field, find-field_other, find-end,
  or_else-none, read_string, read_number, read_boolean, read_object, read_filled, read_filled_list,
)
