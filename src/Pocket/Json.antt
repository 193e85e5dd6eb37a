-- ===== src/Pocket/Json.antt =====
-- The values that `JSON.parse` gives, and the tests of packages/pocket-shared/src/format.ts on them.
-- A text is the list of its character codes; the numbers are the naturals.
use Prim.Native.String.{String}
use text.Mathlib.Text.{◌==◌ as str_eq}
use arkode.Prelude.{
  ℕ, Bool, true, false, ◌&&◌, List, [], ◌∷◌, Option, none, some, ◌==◌, if◌then◌else◌,
}

mutual
  pub data Json : Type 0 where
    null : Json
    boolean : Bool → Json
    number : ℕ → Json
    string : List ℕ → Json
    array : Items → Json
    object : Fields → Json

  pub data Items : Type 0 where
    no_items : Items
    item : Json → Items → Items

  pub data Fields : Type 0 where
    no_fields : Fields
    field : String → Json → Fields → Fields

-- `object[key]`, with none for undefined.
abbrev pub get : String → Fields → Option Json
get key no_fields = none
get key (field name value rest) = if str_eq name key then some value else get key rest

abbrev pub same_text : List ℕ → List ℕ → Bool
same_text [] [] = true
same_text (c ∷ cs) (d ∷ ds) = (c == d) && same_text cs ds
same_text _ _ = false

-- `typeof v === 'string'`, and the string.
abbrev pub as_string : Option Json → Option (List ℕ)
as_string (some (string text)) = some text
as_string _ = none

abbrev pub as_number : Option Json → Option ℕ
as_number (some (number n)) = some n
as_number _ = none

-- `Array.isArray(v)`
abbrev pub as_array : Option Json → Option Items
as_array (some (array items)) = some items
as_array _ = none

-- `isPlainObject(v)`
abbrev pub as_object : Option Json → Option Fields
as_object (some (object fields)) = some fields
as_object _ = none

abbrev pub is_true : Option Json → Bool
is_true (some (boolean b)) = b
is_true _ = false

abbrev pub strings_of : Items → List (List ℕ)
strings_of no_items = []
strings_of (item (string text) rest) = text ∷ strings_of rest
strings_of (item _ rest) = strings_of rest

-- `typeof v === 'object' && v !== null`, read as a `Record`: an array has none of the keys that
-- are asked for.
abbrev pub as_record : Json → Option Fields
as_record (object fields) = some fields
as_record (array items) = some no_fields
as_record _ = none

-- The platform's text functions: `JSON.stringify`, `JSON.parse` (none where it throws),
-- `TextEncoder` and `TextDecoder`.
pub record TextPlatform : Type 0 where
  pub stringify : Json → List ℕ
  pub parse : List ℕ → Option Json
  pub utf8_to_bytes : List ℕ → List ℕ
  pub bytes_to_utf8 : List ℕ → List ℕ
