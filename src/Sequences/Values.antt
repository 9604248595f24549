-- ===== src/Sequences/Values.antt =====
-- JSON values of an enrollment's context, and texts by their characters.
use Prim.Native.String.{String, [], ◌∷◌}
use mathlib.Core.List.{List}
use listmonk_ops.Prelude.{
  ℕ, zero, suc, Option, none, some, Bool, true, false, ◌&&◌, ◌==◌, same, if◌then◌else◌,
}

mutual
  pub data Json : Type 0 where
    null : Json
    boolean : Bool → Json
    number : ℕ → Json
    text : String → Json
    array : Items → Json
    object : Fields → Json

  pub data Items : Type 0 where
    end_items : Items
    item : Json → Items → Items

  pub data Fields : Type 0 where
    end_fields : Fields
    field : String → Json → Fields → Fields

abbrev same_bool : Bool → Bool → Bool
same_bool true b = b
same_bool false true = false
same_bool false false = true

-- `Object.hasOwn` and the read.
unfoldable pub own_field : Fields → String → Option Json
own_field end_fields key = none
own_field (field k v rest) key = if same k key then some v else own_field rest key

abbrev count_fields : Fields → ℕ
count_fields end_fields = 0
count_fields (field k v rest) = suc (count_fields rest)

-- `isDeepStrictEqual` on JSON values: arrays in order, objects as unordered own keys.
unfoldable mutual
  pub deep_equal : Json → Json → Bool
  deep_equal null null = true
  deep_equal (boolean a) (boolean b) = same_bool a b
  deep_equal (number a) (number b) = a == b
  deep_equal (text a) (text b) = same a b
  deep_equal (array xs) (array ys) = deep_equal_items xs ys
  deep_equal (object xs) (object ys) = count_fields xs == count_fields ys && deep_equal_fields xs ys
  deep_equal _ _ = false

  pub deep_equal_items : Items → Items → Bool
  deep_equal_items end_items end_items = true
  deep_equal_items (item x xs) (item y ys) = deep_equal x y && deep_equal_items xs ys
  deep_equal_items _ _ = false

  pub deep_equal_fields : Fields → Fields → Bool
  deep_equal_fields end_fields ys = true
  deep_equal_fields (field k v rest) ys =
      elim (own_field ys k) [ none ↦ false | some w ↦ deep_equal v w ] && deep_equal_fields rest ys

-- One step of `resolvePath`: only a plain object has own fields.
abbrev child : Json → String → Option Json
child (object fs) segment = own_field fs segment
child _ segment = none

unfoldable pub resolve_path : Json → List String → Option Json
resolve_path value List.[] = some value
resolve_path value (List.◌∷◌ segment path) = elim (child value segment) [
  | none ↦ none
  | some v ↦ resolve_path v path
]

-- The number of characters, and the first characters, of a text.
abbrev pub text_count : String → ℕ
text_count [] = 0
text_count (c ∷ s) = suc (text_count s)

abbrev pub text_take : ℕ → String → String
text_take zero s = []
text_take (suc n) [] = []
text_take (suc n) (c ∷ s) = c ∷ text_take n s

abbrev pub text_drop : ℕ → String → String
text_drop zero s = s
text_drop (suc n) [] = []
text_drop (suc n) (c ∷ s) = text_drop n s

-- `{ ...a, ...b }` on own fields: a key that stands keeps its place and takes the new value.
unfoldable pub set_field : Fields → String → Json → Fields
set_field end_fields key v = field key v end_fields
set_field (field k w rest) key v =
    if same k key then field k v rest else field k w (set_field rest key v)

unfoldable pub spread : Fields → Fields → Fields
spread base end_fields = base
spread base (field k v rest) = spread (set_field base k v) rest
