-- ===== src/Player/Props/Tests.antt =====
-- Five horns, of which six are taken away.
use white_board_server.Prelude.{◌≡◌, some, [], ◌∷◌}
use white_board_server.Prelude.Int.{pos}
use white_board_server.Containers.Ord.{int_ord}
use white_board_server.Containers.Map.{find}
use white_board_server.Player.Property
use white_board_server.Player.Props.{PlayerPropTable, get_horns, change_horns}
use white_board_server.Player.Props.Horns.{change_horns-adds}

abbrev five_horns : PlayerPropTable
five_horns = record { account_id = 1; prop_map = (Property.horn, pos 5) ∷ [] }

change_horns-adds_example :
    (get_horns (change_horns 4294967290 five_horns) ≡ 4294967295)
    × (find (pos 4) (change_horns 4294967290 five_horns).prop_map ≡ some (pos 4294967295))
unfolding get_horns find
change_horns-adds_example = change_horns-adds 4294967290 4 five_horns
