-- ===== src/Wire/Entries.antt =====
-- The loops over the entries of an object in src/adapters/a2a/serialize.ts.
use jabr.Base.{String, Option, none, some, [], ◌∷◌, Map, insert}
use jabr.Wire.{Value, Fields, end, field, set, Parsed, parsed, ◌>>=◌}

module _ {ℓ} {V : Type ℓ} where
  -- `if (value) result[key] = value`
  abbrev pub keep : String → Option V → Map V → Map V
  keep key none result = result
  keep key (some value) result = insert key value result

  -- `for (const [k, v] of Object.entries(fields)) …`, where the body may skip an entry or throw
  unfoldable pub read_entries : (Value → Parsed (Option V)) → Fields → Map V → Parsed (Map V)
  read_entries parse end result = parsed result
  read_entries parse (field key value rest) result = do
    v ← parse value
    read_entries parse rest (keep key v result)

  -- `out[key] = serialize(value)` for each entry, where `serialize` may throw
  unfoldable pub write_entries : (V → Parsed Value) → Map V → Fields → Parsed Fields
  write_entries serialize [] out = parsed out
  write_entries serialize ((key, v) ∷ rest) out = do
    value ← serialize v
    write_entries serialize rest (set key value out)

  -- the same where `serialize` throws nothing
  unfoldable pub write_all : (V → Value) → Map V → Fields → Fields
  write_all serialize [] out = out
  write_all serialize ((key, v) ∷ rest) out = write_all serialize rest (set key (serialize v) out)
