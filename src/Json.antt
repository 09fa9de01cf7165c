-- ===== src/Json.antt =====
-- JSON values, and `json.dumps(value, ensure_ascii=False, sort_keys=True, separators=(",", ":"))`,
-- which `canonical_json` (packages/sync-protocol/src/ameme_sync_protocol/model.py) and
-- `canonical_json_bytes` (packages/agent-local-node-protocol) call.
pub mod Access
use Prim.Native.Char.{code}
use ameme.Base.{
  ℕ, String, ◌+s◌, Bool, true, false, Option, none, some, ltb, if◌then◌else◌, ◌==◌, string_eq,
  nat_eq,
}
use ameme.Base.Int.{ℤ}
use ameme.Base.Text.{decimal_int, hex_byte, str_leb}

-- `real` carries the text that Python's `repr` gives the float.
mutual
  pub data Json : Type 0 where
    null : Json
    bool : Bool → Json
    int : ℤ → Json
    real : String → Json
    str : String → Json
    arr : Items → Json
    obj : Fields → Json

  pub data Items : Type 0 where
    nil : Items
    cons : Json → Items → Items

  pub data Fields : Type 0 where
    end : Fields
    field : String → Json → Fields → Fields

-- `d.get(key)`
unfoldable pub get : String → Fields → Option Json
get key end = none
get key (field k v fs) = if k == key then some v else get key fs

unfoldable pub insert_field : String → Json → Fields → Fields
insert_field k v end = field k v end
insert_field k v (field j w fs) =
    if str_leb k j then field k v (field j w fs) else field j w (insert_field k v fs)

-- The members of every object in the order of their keys.
unfoldable mutual
  unfolding insert_field

  pub sort_keys : Json → Json
  sort_keys null = null
  sort_keys (bool b) = bool b
  sort_keys (int n) = int n
  sort_keys (real s) = real s
  sort_keys (str s) = str s
  sort_keys (arr xs) = arr (sort_items xs)
  sort_keys (obj fs) = obj (sort_fields fs)

  pub sort_items : Items → Items
  sort_items nil = nil
  sort_items (cons x xs) = cons (sort_keys x) (sort_items xs)

  pub sort_fields : Fields → Fields
  sort_fields end = end
  sort_fields (field k v fs) = insert_field k (sort_keys v) (sort_fields fs)

-- The escapes of `json.encoder` without `ensure_ascii`.
escape_code : ℕ → String → String
escape_code c plain =
    if c == 34
    then "\\\""
    else if c == 92
    then "\\\\"
    else if c == 8
    then "\\b"
    else if c == 9
    then "\\t"
    else if c == 10
    then "\\n"
    else if c == 12
    then "\\f"
    else if c == 13
    then "\\r"
    else if ltb c 32
    then "\\u00" +s hex_byte c
    else plain

escape : String → String
unfolding escape_code hex_byte
escape String.[] = ""
escape (String.◌∷◌ c s) = escape_code (code c) (String.◌∷◌ c "") +s escape s

quote : String → String
unfolding escape
quote s = "\"" +s escape s +s "\""

unfoldable mutual
  unfolding quote decimal_int

  pub print : Json → String
  print null = "null"
  print (bool true) = "true"
  print (bool false) = "false"
  print (int n) = decimal_int n
  print (real s) = s
  print (str s) = quote s
  print (arr xs) = "[" +s print_items xs +s "]"
  print (obj fs) = "{" +s print_fields fs +s "}"

  pub print_items : Items → String
  print_items nil = ""
  print_items (cons x nil) = print x
  print_items (cons x (cons y ys)) = print x +s "," +s print_items (cons y ys)

  pub print_fields : Fields → String
  print_fields end = ""
  print_fields (field k v end) = quote k +s ":" +s print v
  print_fields (field k v (field j w fs)) =
      quote k +s ":" +s print v +s "," +s print_fields (field j w fs)

unfoldable pub canonical_json : Json → String
unfolding sort_keys print
canonical_json v = print (sort_keys v)
