-- ===== src/Player/Json/Examples.antt =====
-- Values of JSON as trees, which behave as the sources rely on; a text is parsed as no object.
use white_board_server.Prelude.{
  ℕ, ◌≡◌, refl, ap, Bool, true, false, Option, none, some, List, [], ◌∷◌, if◌then◌else◌, arith,
}
use white_board_server.Prelude.Int.{ℤ, pos}
use white_board_server.Containers.Ord.{Bytes, bytes_eq}
use white_board_server.Player.Json.{Rapidjson, fits, fits_unsigned}

pub data Tree : Type 0 where
  object_end : Tree
  entry : Bytes → Tree → Tree → Tree
  leaf_number : ℤ → Tree
  leaf_string : Bytes → Tree
  array_end : Tree
  element : Tree → Tree → Tree

abbrev add_entry : Bytes → Tree → Tree → Tree
add_entry key v object_end = entry key v object_end
add_entry key v (entry k w rest) = entry k w (add_entry key v rest)
add_entry key v (leaf_number z) = leaf_number z
add_entry key v (leaf_string s) = leaf_string s
add_entry key v array_end = array_end
add_entry key v (element w rest) = element w rest

abbrev find_entry : Bytes → Tree → Option Tree
find_entry key object_end = none
find_entry key (entry k w rest) = if bytes_eq k key then some w else find_entry key rest
find_entry key (leaf_number z) = none
find_entry key (leaf_string s) = none
find_entry key array_end = none
find_entry key (element w rest) = none

abbrev is_entries : Tree → Bool
is_entries object_end = true
is_entries (entry k w rest) = is_entries rest
is_entries (leaf_number z) = false
is_entries (leaf_string s) = false
is_entries array_end = false
is_entries (element w rest) = false

abbrev list_entries : Tree → List (Bytes × Tree)
list_entries object_end = []
list_entries (entry k w rest) = (k, w) ∷ list_entries rest
list_entries (leaf_number z) = []
list_entries (leaf_string s) = []
list_entries array_end = []
list_entries (element w rest) = []

abbrev number_in : Tree → ℤ
number_in (leaf_number z) = z
number_in _ = pos 0

abbrev number_fits : ℕ → Tree → Bool
number_fits width (leaf_number z) = fits width z
number_fits width _ = false

abbrev natural_in : Tree → ℕ
natural_in (leaf_number (pos n)) = n
natural_in _ = 0

abbrev natural_fits : ℕ → Tree → Bool
natural_fits width (leaf_number z) = fits_unsigned width z
natural_fits width _ = false

abbrev of_list : List Tree → Tree
of_list [] = array_end
of_list (w ∷ rest) = element w (of_list rest)

abbrev is_elements : Tree → Bool
is_elements array_end = true
is_elements (element w rest) = true
is_elements _ = false

abbrev list_elements : Tree → List Tree
list_elements (element w rest) = w ∷ list_elements rest
list_elements _ = []

pub is_elements-of_list : (l : List Tree) → is_elements (of_list l) ≡ true
is_elements-of_list [] = refl
is_elements-of_list (w ∷ rest) = refl

pub list_elements-of_list : (l : List Tree) → list_elements (of_list l) ≡ l
list_elements-of_list [] = refl
list_elements-of_list (w ∷ rest) = ap (λ l. w ∷ l) (list_elements-of_list rest)

abbrev is_text : Tree → Bool
is_text (leaf_string s) = true
is_text _ = false

abbrev text_in : Tree → Bytes
text_in (leaf_string s) = s
text_in _ = []

pub find_entry-add_entry :
    (key added : Bytes) (v o : Tree)
    → is_entries o ≡ true
    → find_entry key (add_entry added v o) ≡ elim (find_entry key o) [
      | none ↦ if bytes_eq added key then some v else none
      | some w ↦ some w
    ]
find_entry-add_entry key added v object_end h = ground arith
find_entry-add_entry key added v (entry k w rest) h =
    ground (arith, find_entry-add_entry key added v rest h)
find_entry-add_entry key added v (leaf_number z) h = cc
find_entry-add_entry key added v (leaf_string s) h = cc
find_entry-add_entry key added v array_end h = cc
find_entry-add_entry key added v (element w rest) h = cc

pub is_entries-add_entry :
    (key : Bytes) (v o : Tree) → is_entries o ≡ true → is_entries (add_entry key v o) ≡ true
is_entries-add_entry key v object_end h = refl
is_entries-add_entry key v (entry k w rest) h = is_entries-add_entry key v rest h
is_entries-add_entry key v (leaf_number z) h = h
is_entries-add_entry key v (leaf_string s) h = h
is_entries-add_entry key v array_end h = h
is_entries-add_entry key v (element w rest) h = h

instance abbrev pub trees : Rapidjson
trees = record {
  Value = Tree;
  object = object_end;
  add_member = add_entry;
  member = find_entry;
  is_object = is_entries;
  member-object = λ key. refl;
  member-add_member = find_entry-add_entry;
  is_object-object = refl;
  is_object-add_member = is_entries-add_entry;
  number = leaf_number;
  is_int = number_fits 31;
  get_int = number_in;
  is_int64 = number_fits 63;
  get_int64 = number_in;
  is_int-number = λ z. refl;
  get_int-number = λ z h. refl;
  is_int64-number = λ z. refl;
  get_int64-number = λ z h. refl;
  is_uint = natural_fits 32;
  get_uint = natural_in;
  is_uint64 = natural_fits 64;
  get_uint64 = natural_in;
  is_uint-number = λ z. refl;
  get_uint-number = λ n h. refl;
  is_uint64-number = λ z. refl;
  get_uint64-number = λ n h. refl;
  array = of_list;
  is_array = is_elements;
  elements = list_elements;
  is_array-array = is_elements-of_list;
  elements-array = list_elements-of_list;
  string = leaf_string;
  is_string = is_text;
  get_string = text_in;
  is_string-string = λ s. refl;
  get_string-string = λ s. refl;
  members = list_entries;
  parse = λ s. leaf_string s;
}
