-- ===== src/Wire/Lenient.antt =====
-- The two spellings of a key: getKey of src/adapters/a2a/serialize.ts reads camelCase and
-- snake_case alike.
use jabr.Base.{
  ◌≡◌, refl, sym, String, Bool, true, false, not, some, none, [], ◌∷◌, Map, all, values, lookup,
  remove, lookup-remove, get_or, Bool-cases, inl, inr, str_eq, eq_iff, eq_refl, arith,
}
use jabr.Wire.{object, Fields, end, field, find, get_key}
use jabr.Wire.Reading.{first_of-none}
use jabr.Wire.Messages.{from_wire_message}

-- a name as the table spells it
abbrev respelled : Map String → String → String
respelled table name = get_or (lookup name table) name

-- an object with the keys of a table spelled otherwise
unfoldable pub respell : Map String → Fields → Fields
respell table end = end
respell table (field name value rest) = field (respelled table name) value (respell table rest)

abbrev misses : String → Map String → Bool
misses key table = all (λ spelling. not (str_eq spelling key)) (values table)

respelled-misses :
    (table : Map String) (name key : String)
    → misses key table ≡ true
    → str_eq name key ≡ false
    → str_eq (respelled table name) key ≡ false
unfolding lookup values
respelled-misses [] name key m e = e
respelled-misses ((old, new) ∷ rest) name key m e =
    ground (arith, respelled-misses rest name key, m, e)

-- A key that the table leaves alone and gives to no other is found as before.
find_untouched :
    (table : Map String) (key : String) (fs : Fields)
    → lookup key table ≡ none
    → misses key table ≡ true
    → find key (respell table fs) ≡ find key fs
unfolding find respell
find_untouched table key end l m = refl
find_untouched table key (field name value rest) l m = elim (Bool-cases (str_eq name key)) [
  | inl e ↦
      let same : name ≡ key = ground (arith, eq_iff name key, e) in rw (same, l, eq_refl key) refl
  | inr e ↦ rw (respelled-misses table name key m e, e) (find_untouched table key rest l m)
]

-- A key that the table spells otherwise is found under no name.
find_gone :
    (table : Map String) (key new : String) (fs : Fields)
    → lookup key table ≡ some new
    → str_eq new key ≡ false
    → misses key table ≡ true
    → find key (respell table fs) ≡ none
unfolding find respell
find_gone table key new end l d m = refl
find_gone table key new (field name value rest) l d m = elim (Bool-cases (str_eq name key)) [
  | inl e ↦
      let same : name ≡ key = ground (arith, eq_iff name key, e) in
      rw (same, l, d) (find_gone table key new rest l d m)
  | inr e ↦ rw (respelled-misses table name key m e) (find_gone table key new rest l d m)
]

respelled_without :
    (table : Map String) (key name : String)
    → str_eq name key ≡ false
    → respelled (remove key table) name ≡ respelled table name
respelled_without table key name e =
    let apart : str_eq key name ≡ false = ground (arith, eq_iff key name, eq_iff name key, e) in
    rw (lookup-remove key name table, apart)

respelled_differs :
    (table : Map String) (key new name : String)
    → misses new (remove key table) ≡ true
    → str_eq name key ≡ false
    → str_eq name new ≡ false
    → str_eq (respelled table name) new ≡ false
respelled_differs table key new name m e d =
    rw (← respelled_without table key name e) (respelled-misses (remove key table) name new m d)

-- The new spelling of a key finds what the old one found, where it is the spelling of no other.
find_respelled :
    (table : Map String) (key new : String) (fs : Fields)
    → lookup key table ≡ some new
    → misses new (remove key table) ≡ true
    → find new fs ≡ none
    → find new (respell table fs) ≡ find key fs
unfolding find respell
find_respelled table key new end l m h = refl
find_respelled table key new (field name value rest) l m h = elim (Bool-cases (str_eq name new)) [
  | inl e ↦ ground (arith, h, e)
  | inr d ↦
      let absent : find new rest ≡ none = ground (arith, h, d) in
      elim (Bool-cases (str_eq name key)) [
        | inl e ↦
            let same : name ≡ key = ground (arith, eq_iff name key, e) in
            rw (same, l, eq_refl new, eq_refl key) refl
        | inr e ↦
            rw (respelled_differs table key new name m e d, e)
              (find_respelled table key new rest l m absent)
      ]
]

-- A key that is read under both spellings is read alike from an object in either.
get_key_respelled :
    (table : Map String) (camel snake : String) (fs : Fields)
    → lookup camel table ≡ some snake
    → str_eq snake camel ≡ false
    → misses camel table ≡ true
    → misses snake (remove camel table) ≡ true
    → find snake fs ≡ none
    → get_key (respell table fs) camel snake ≡ get_key fs camel snake
get_key_respelled table camel snake fs l d m n h =
    rw (find_gone table camel snake fs l d m, find_respelled table camel snake fs l n h, h)
      (sym (first_of-none (find camel fs)))

-- the keys of a message that have two spellings
abbrev pub message_keys : Map String
message_keys =
    ("messageId", "message_id")
    ∷ ("contextId", "context_id")
    ∷ ("taskId", "task_id")
    ∷ ("referenceTaskIds", "reference_task_ids")
    ∷ []

-- A message whose keys are in camelCase, none of them in snake_case as well, is read alike with
-- those keys in snake_case.
pub from_wire_message-respell :
    (fs : Fields)
    → find "message_id" fs ≡ none
    → find "context_id" fs ≡ none
    → find "task_id" fs ≡ none
    → find "reference_task_ids" fs ≡ none
    → from_wire_message (object (respell message_keys fs)) ≡ from_wire_message (object fs)
unfolding from_wire_message lookup remove values
from_wire_message-respell fs m c t r = rw (
  get_key_respelled message_keys "messageId" "message_id" fs refl refl refl refl m,
  get_key_respelled message_keys "contextId" "context_id" fs refl refl refl refl c,
  get_key_respelled message_keys "taskId" "task_id" fs refl refl refl refl t,
  get_key_respelled message_keys "referenceTaskIds" "reference_task_ids" fs refl refl refl refl r,
  find_untouched message_keys "role" fs refl refl,
  find_untouched message_keys "parts" fs refl refl,
  find_untouched message_keys "metadata" fs refl refl,
  find_untouched message_keys "extensions" fs refl refl,
)
