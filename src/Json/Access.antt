-- ===== src/Json/Access.antt =====
-- Reading a JSON value the way Python reads the `dict`, `list` or `str` that it stands for.
use ameme.Base.{
  string_eq, ℕ, suc, String, Bool, true, false, none, some, List, [], ◌∷◌, ◌==◌, ◌&&◌, nat_beq,
  if◌then◌else◌,
}
use ameme.Base.Sets.{contains}
use ameme.Base.Int.{pos, int_beq}
use ameme.Json.{
  Json, Items, Fields, null, bool, int, real, str, arr, obj, nil, cons, end, field, get,
}

-- `list(d)`
unfoldable pub names : Fields → List String
names end = []
names (field k v fs) = k ∷ names fs

-- `d[key]`, where the key is there; `d.get(key)` where it may not be.
unfoldable pub at_key : String → Fields → Json
unfolding get
at_key key fs = elim (get key fs) [ none ↦ null | some v ↦ v ]

unfoldable pub size : Fields → ℕ
size end = 0
size (field k v fs) = suc (size fs)

abbrev pub is_text : String → Json → Bool
is_text s (Json.str t) = s == t
is_text s _ = false

unfoldable pub items_length : Items → ℕ
items_length nil = 0
items_length (cons v vs) = suc (items_length vs)

-- Python's `==`. `False` and `True` are the integers 0 and 1; a `float` equals the text of itself only.
unfoldable mutual
  unfolding contains names at_key

  pub json_eq : Json → Json → Bool
  json_eq null null = true
  json_eq (bool a) (bool b) = if a then b else if b then false else true
  json_eq (bool a) (int n) = int_beq (pos (if a then 1 else 0)) n
  json_eq (int n) (bool a) = int_beq (pos (if a then 1 else 0)) n
  json_eq (int n) (int m) = int_beq n m
  json_eq (real s) (real t) = s == t
  json_eq (str s) (str t) = s == t
  json_eq (arr xs) (arr ys) = items_eq xs ys
  json_eq (obj fs) (obj gs) = nat_beq (size fs) (size gs) && fields_eq fs gs
  json_eq _ _ = false

  pub items_eq : Items → Items → Bool
  items_eq nil nil = true
  items_eq (cons x xs) (cons y ys) = json_eq x y && items_eq xs ys
  items_eq _ _ = false

  pub fields_eq : Fields → Fields → Bool
  fields_eq end gs = true
  fields_eq (field k v fs) gs = contains k (names gs) && json_eq v (at_key k gs) && fields_eq fs gs
