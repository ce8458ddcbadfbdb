-- ===== src/Player/Changes/Setting.antt =====
-- What SetPropertyChanges leaves for GetPropertyChange.
use white_board_server.Prelude.{◌≡◌, refl, Option, none, some, List, [], ◌∷◌, if◌then◌else◌, arith}
use white_board_server.Prelude.Int.{ℤ, int_eq}
use white_board_server.Containers.Ord.{int_ord}
use white_board_server.Containers.Map.{Map, find, put, find-put}
use white_board_server.Player.Changes.{
  OnePropertyChange, PlayerPropertyChange, set_changes, set_property_changes, get_property_change,
}

-- The last change of a property in a list.
abbrev pub last_change : ℤ → List OnePropertyChange → Option OnePropertyChange
last_change id [] = none
last_change id (v ∷ rest) = elim (last_change id rest) [
  | none ↦ if int_eq v.property_id id then some v else none
  | some w ↦ some w
]

abbrev pub or_else : Option OnePropertyChange → Option OnePropertyChange → Option OnePropertyChange
or_else none o = o
or_else (some v) o = some v

set_changes-last :
    (id : ℤ) (changes : List OnePropertyChange) (m : Map ℤ OnePropertyChange)
    → find id (set_changes changes m) ≡ or_else (last_change id changes) (find id m)
unfolding set_changes
set_changes-last id [] m = refl
set_changes-last id (v ∷ rest) m =
    ground (arith, set_changes-last id rest (put v.property_id v m), find-put v.property_id id v m)

-- After SetPropertyChanges, GetPropertyChange gives the last change of a property in the list, and
-- for a property that is not in it what it gave before.
pub get_property_change-set :
    (id : ℤ) (changes : List OnePropertyChange) (c : PlayerPropertyChange)
    → get_property_change id (set_property_changes changes c)
      ≡ or_else (last_change id changes) (get_property_change id c)
unfolding get_property_change set_property_changes
get_property_change-set id changes c = set_changes-last id changes c.changed_props
