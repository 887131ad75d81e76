-- ===== src/Wire.antt =====
-- The values of the wire format and what reads and writes them: the first part of
-- src/adapters/a2a/serialize.ts. An object is its own keys in order of insertion; numbers are the
-- integers. A field that the sources cast without a check (`as string[]`) is `Items` or
-- `Fields`, as it is at run time.
pub mod Cards
pub mod Entries
pub mod Events
pub mod Flows
pub mod Lenient
pub mod Messages
pub mod Parts
pub mod Push
pub mod Reading
pub mod Requests
pub mod Roundtrip
pub mod Security
pub mod Tasks
mod Tests
use jabr.Base.{
  ◌≡◌, refl, ℕ, String, Bool, true, false, Option, none, some, List, [], ◌∷◌, if◌then◌else◌, get_or,
  is_some, map_option, str_eq, ◌||◌,
}

pub data ℤ : Type 0 where
  pos : ℕ → ℤ
  negsuc : ℕ → ℤ

mutual
  pub data Value : Type 0 where
    undefined null : Value
    boolean : Bool → Value
    number : ℤ → Value
    string : String → Value
    array : Items → Value
    object : Fields → Value

  pub data Items : Type 0 where
    nil : Items
    cons : Value → Items → Items

  pub data Fields : Type 0 where
    end : Fields
    field : String → Value → Fields → Fields

-- What a parser throws: the template of the source with what it interpolates. `type_error` is the
-- engine's own, where `in` or a property meets a value that has none.
pub data Thrown : Type 0 where
  must_be_object : (what : String) → Thrown
  unknown_part unknown_stream_response : (raw : Fields) → Thrown
  type_error : Thrown

pub data Parsed {ℓ} (A : Type ℓ) : Type ℓ where
  parsed : A → Parsed A
  thrown : Thrown → Parsed A

module _ {ℓ κ} {A : Type ℓ} {B : Type κ} where
  infixl 10 ◌>>=◌
  abbrev pub ◌>>=◌ : Parsed A → (A → Parsed B) → Parsed B
  parsed a >>= f = f a
  thrown e >>= f = thrown e

-- `key in out` and `out[key]`: none for a key that is not there
unfoldable pub find : String → Fields → Option Value
find key end = none
find key (field name value rest) = if str_eq name key then some value else find key rest

-- `out[key] = value`
unfoldable pub set : String → Value → Fields → Fields
set key value end = field key value end
set key value (field name old rest) =
    if str_eq name key then field name value rest else field name old (set key value rest)

-- `if (value !== undefined) out[key] = value`
unfoldable pub put : String → Option Value → Fields → Fields
put key none out = out
put key (some value) out = set key value out

-- `obj[key]` where a missing key is `undefined`
abbrev pub property : String → Fields → Value
property key obj = get_or (find key obj) undefined

-- `value[key]` for a value that is used as an object; the keys that are asked for are none of an
-- array's or a text's own
abbrev pub property_of : String → Value → Parsed Value
property_of key (object fields) = parsed (property key fields)
property_of key undefined = thrown type_error
property_of key null = thrown type_error
property_of key _ = parsed undefined

-- what is found under the first key, else under the second
abbrev pub first_of : Option Value → Option Value → Value
first_of (some value) other = value
first_of none other = get_or other undefined

abbrev pub get_key : Fields → String → String → Value
get_key obj camel snake = first_of (find camel obj) (find snake obj)

abbrev pub as_items : Value → Items
as_items (array items) = items
as_items _ = nil

abbrev pub as_string : Value → Option String
as_string (string text) = some text
as_string _ = none

abbrev pub as_number : Value → Option ℤ
as_number (number n) = some n
as_number _ = none

abbrev pub as_boolean : Value → Option Bool
as_boolean (boolean b) = some b
as_boolean _ = none

-- `isPlainObject(value) ? value : undefined`
abbrev pub as_object : Value → Option Fields
as_object (object fields) = some fields
as_object _ = none

abbrev pub is_plain_object : Value → Bool
is_plain_object value = is_some (as_object value)

abbrev pub get_key_array : Fields → String → String → Items
get_key_array obj camel snake = as_items (get_key obj camel snake)

abbrev pub get_key_string : Fields → String → String → Option String
get_key_string obj camel snake = as_string (get_key obj camel snake)

abbrev pub get_key_number : Fields → String → String → Option ℤ
get_key_number obj camel snake = as_number (get_key obj camel snake)

abbrev pub get_key_boolean : Fields → String → String → Option Bool
get_key_boolean obj camel snake = as_boolean (get_key obj camel snake)

abbrev pub get_key_object : Fields → String → String → Option Fields
get_key_object obj camel snake = as_object (get_key obj camel snake)

-- `value ?? other`
abbrev pub or_value : Value → Value → Value
or_value undefined other = other
or_value null other = other
or_value value other = value

-- `camel in raw || snake in raw`
abbrev pub has_key : Fields → String → String → Bool
has_key raw camel snake = is_some (find camel raw) || is_some (find snake raw)

-- `raw[camel] ?? raw[snake]`
abbrev pub either_key : Fields → String → String → Value
either_key raw camel snake = or_value (property camel raw) (property snake raw)

-- `if (!isPlainObject(raw)) throw new Error("<what> must be an object")`
abbrev pub plain_object : String → Value → Parsed Fields
plain_object what (object fields) = parsed fields
plain_object what _ = thrown (must_be_object what)

-- `array.map(parse)` with a parser that may throw
unfoldable pub map_items {ℓ} : {A : Type ℓ} → (Value → Parsed A) → Items → Parsed (List A)
map_items parse nil = parsed []
map_items parse (cons value rest) = do
  a ← parse value
  parsed_rest ← map_items parse rest
  parsed (a ∷ parsed_rest)

-- `list.map(serialize)`
unfoldable pub collect {ℓ} : {A : Type ℓ} → (A → Value) → List A → Items
collect serialize [] = nil
collect serialize (a ∷ rest) = cons (serialize a) (collect serialize rest)

-- `list !== undefined && list.length > 0`, with the list
abbrev pub filled : Option Items → Option Value
filled (some (cons value rest)) = some (array (cons value rest))
filled _ = none

-- the same for a list that is serialized: `out[key] = list.map(serialize)`
abbrev pub filled_list {ℓ} : {A : Type ℓ} → (A → Value) → Option (List A) → Option Value
filled_list serialize (some (a ∷ rest)) = some (array (collect serialize (a ∷ rest)))
filled_list serialize _ = none

-- `object ? parse(object) : undefined`
abbrev pub parse_optional {ℓ} :
    {A : Type ℓ} → (Value → Parsed A) → Option Fields → Parsed (Option A)
parse_optional parse none = parsed none
parse_optional parse (some fields) = do a ← parse (object fields); parsed (some a)

-- `first ?? second` for results that may be undefined
abbrev pub or_option {ℓ} : {A : Type ℓ} → Option A → Option A → Option A
or_option none second = second
or_option (some a) second = some a

-- `if (part !== undefined) out[key] = serialize(part)`, for `put`
abbrev pub nested {ℓ} : {A : Type ℓ} → (A → Fields) → Option A → Option Value
nested serialize part = map_option object (map_option serialize part)
