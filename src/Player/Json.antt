-- ===== src/Player/Json.antt =====
-- What the sources use of rapidjson, a library that is not part of the repository: its values and
-- their documented behaviour, as a parameter of the definitions that read and write JSON.
pub mod Members
pub mod Examples
use white_board_server.Prelude.{
  ℕ, ◌≡◌, ◌<◌, ◌≤◌, ◌+◌, ◌^◌, Bool, true, false, Option, none, some, List, [], ◌∷◌, ltb, ◌==◌,
  if◌then◌else◌,
}
use white_board_server.Prelude.Int.{ℤ, pos, negsuc}
use white_board_server.Containers.Ord.{Bytes, bytes_eq}

-- Whether a signed number has a width.
abbrev pub fits : ℕ → ℤ → Bool
fits width (pos n) = ltb n (2 ^ width)
fits width (negsuc n) = ltb n (2 ^ width)

abbrev pub fits_unsigned : ℕ → ℤ → Bool
fits_unsigned width (pos n) = ltb n (2 ^ width)
fits_unsigned width (negsuc n) = false

-- A `const char*` ends at the first byte 0.
abbrev pub c_str : Bytes → Bytes
c_str [] = []
c_str (b ∷ s) = if b == 0 then [] else b ∷ c_str s

pub record Rapidjson : Type 1 where
  pub Value : Type 0
  -- SetObject, AddMember, HasMember with operator[], IsObject
  pub object : Value
  pub add_member : Bytes → Value → Value → Value
  pub member : Bytes → Value → Option Value
  pub is_object : Value → Bool
  pub member-object : (key : Bytes) → member key object ≡ none
  pub member-add_member :
      (key added : Bytes) (v o : Value)
      → is_object o ≡ true
      → member key (add_member added v o) ≡ elim (member key o) [
        | none ↦ if bytes_eq added key then some v else none
        | some w ↦ some w
      ]
  pub is_object-object : is_object object ≡ true
  pub is_object-add_member :
      (key : Bytes) (v o : Value) → is_object o ≡ true → is_object (add_member key v o) ≡ true
  -- A number, which is an int if it fits in one.
  pub number : ℤ → Value
  pub is_int : Value → Bool
  pub get_int : Value → ℤ
  pub is_int64 : Value → Bool
  pub get_int64 : Value → ℤ
  pub is_int-number : (z : ℤ) → is_int (number z) ≡ fits 31 z
  pub get_int-number : (z : ℤ) → fits 31 z ≡ true → get_int (number z) ≡ z
  pub is_int64-number : (z : ℤ) → is_int64 (number z) ≡ fits 63 z
  pub get_int64-number : (z : ℤ) → fits 63 z ≡ true → get_int64 (number z) ≡ z
  -- Unsigned numbers.
  pub is_uint : Value → Bool
  pub get_uint : Value → ℕ
  pub is_uint64 : Value → Bool
  pub get_uint64 : Value → ℕ
  pub is_uint-number : (z : ℤ) → is_uint (number z) ≡ fits_unsigned 32 z
  pub get_uint-number : (n : ℕ) → n < 2 ^ 32 → get_uint (number (pos n)) ≡ n
  pub is_uint64-number : (z : ℤ) → is_uint64 (number z) ≡ fits_unsigned 64 z
  pub get_uint64-number : (n : ℕ) → n < 2 ^ 64 → get_uint64 (number (pos n)) ≡ n
  -- An array of values.
  pub array : List Value → Value
  pub is_array : Value → Bool
  pub elements : Value → List Value
  pub is_array-array : (l : List Value) → is_array (array l) ≡ true
  pub elements-array : (l : List Value) → elements (array l) ≡ l
  -- A text of a `const char*`, and GetString, whose text ends before a byte 0.
  pub string : Bytes → Value
  pub is_string : Value → Bool
  pub get_string : Value → Bytes
  pub is_string-string : (s : Bytes) → is_string (string s) ≡ true
  pub get_string-string : (s : Bytes) → get_string (string s) ≡ s
  -- The members in their order, with their names; and a document parsed from a text, which is not an
  -- object unless the text is one of an object.
  pub members : Value → List (Bytes × Value)
  pub parse : Bytes → Value
