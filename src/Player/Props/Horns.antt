-- ===== src/Player/Props/Horns.antt =====
-- What ChangeHorns does to the horns and to the other properties of a player.
use white_board_server.Prelude.{
  ℕ, ◌+◌, ◌-◌, ◌%◌, ◌^◌, ◌≡◌, ◌||◌, some, none, if◌then◌else◌, ltb, ◌==◌, arith, ap, ◌∙◌,
}
use white_board_server.Prelude.Int.{pos}
use white_board_server.Containers.Ord.{int_ord}
use white_board_server.Containers.Map.{find, put, find-put, find-put_self}
use white_board_server.Player.Property
use white_board_server.Wire.Stream.{twos}
use white_board_server.Player.Props.{PlayerPropTable, get_horns, change_horns}

-- The test of ChangeHorns lets each change pass that does one.
passes :
    (horns change : ℕ)
    → (if ltb 0 change || ltb ((2 ^ 32 - change) % 2 ^ 32) horns
        then (horns + change) % 2 ^ 32
        else 0)
      ≡ (horns + change) % 2 ^ 32
passes horns change = ground arith

with_horns : ℕ → PlayerPropTable → PlayerPropTable
with_horns n t = record t { prop_map = put Property.horn (pos n) t.prop_map }

change_horns-with_horns :
    (change : ℕ) (t : PlayerPropTable)
    → change_horns change t ≡ with_horns ((get_horns t + change) % 2 ^ 32) t
unfolding change_horns with_horns
change_horns-with_horns change t = ap (λ n. with_horns n t) (passes (get_horns t) change)

get_horns-with_horns : (n : ℕ) (t : PlayerPropTable) → get_horns (with_horns n t) ≡ n % 2 ^ 32
unfolding get_horns with_horns
get_horns-with_horns n t =
    ap (λ o. twos 32 (elim o [ none ↦ pos 0 | some v ↦ v ]))
      (find-put_self Property.horn (pos n) t.prop_map)

-- ChangeHorns adds an unsigned number, modulo 2^32 and whatever its test says: there is no change
-- that it refuses, and one that stands for a decrease below 0 leaves about 2^32 horns. It changes no
-- other property.
pub change_horns-adds :
    (change id : ℕ) (t : PlayerPropTable)
    → (get_horns (change_horns change t) ≡ (get_horns t + change) % 2 ^ 32)
      × (find (pos id) (change_horns change t).prop_map ≡ (
          if 4 == id
          then some (pos ((get_horns t + change) % 2 ^ 32))
          else find (pos id) t.prop_map))
unfolding with_horns
change_horns-adds change id t =
    let n = (get_horns t + change) % 2 ^ 32 in
    let here = change_horns-with_horns change t in
    (
      ap get_horns here ∙ get_horns-with_horns n t ∙ omega arith,
      ap (λ (u : PlayerPropTable). find (pos id) u.prop_map) here
          ∙ find-put Property.horn (pos id) (pos n) t.prop_map,
    )
