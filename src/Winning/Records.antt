-- ===== src/Winning/Records.antt =====
-- The records of a player over a sequence of won games.
use white_board_server.Prelude.{
  ℕ, ◌+◌, ◌%◌, ◌^◌, ◌<◌, ◌≡◌, ◌∙◌, ap, refl, false, List, [], ◌∷◌, length, arith,
}
use white_board_server.Prelude.Int.{ℤ, int_lt}
use white_board_server.Player.Character.{PlayerCharacterInfo}
use white_board_server.Winning.{greater, wined_info}

-- The games in order, each with its time and result.
abbrev pub wins : ℕ → List (ℕ × ℤ) → PlayerCharacterInfo → PlayerCharacterInfo
unfolding wined_info
wins zone [] c = c
wins zone ((now, result) ∷ rest) c = wins zone rest (wined_info zone now result c)

abbrev pub greatest : List (ℕ × ℤ) → ℤ → ℤ
greatest [] best = best
greatest ((_, result) ∷ rest) best = greatest rest (greater result best)

greater-bound : (a b : ℤ) → int_lt (greater a b) a ≡ false
greater-bound a b = ground arith

wins-wined :
    (zone : ℕ) (games : List (ℕ × ℤ)) (c : PlayerCharacterInfo)
    → c.wined < 2 ^ 32
    → (wins zone games c).wined ≡ (c.wined + length games) % 2 ^ 32
unfolding wined_info
wins-wined zone [] c small = ground (arith, small)
wins-wined zone ((now, result) ∷ rest) c small =
    wins-wined zone rest (wined_info zone now result c) (ground arith) ∙ ground (arith, small)

wins-max_win :
    (zone : ℕ) (games : List (ℕ × ℤ)) (c : PlayerCharacterInfo)
    → (wins zone games c).max_win ≡ greatest games c.max_win
unfolding wined_info
wins-max_win zone [] c = refl
wins-max_win zone ((now, result) ∷ rest) c =
    wins-max_win zone rest (wined_info zone now result c) ∙ ap (greatest rest) (ground arith)

wins-day_maxwin :
    (zone : ℕ) (games : List (ℕ × ℤ)) (c : PlayerCharacterInfo)
    → int_lt c.day_maxwin c.this_day_max_win ≡ false
    → int_lt (wins zone games c).day_maxwin (wins zone games c).this_day_max_win ≡ false
unfolding wined_info
wins-day_maxwin zone [] c holds = holds
wins-day_maxwin zone ((now, result) ∷ rest) c holds =
    let d = wined_info zone now result c in
    wins-day_maxwin zone rest d (greater-bound d.this_day_max_win _)

-- If the count of won games is a number of 32 bits and the record of a day is not below what was won
-- this day, then after any won games the count is the sum modulo 2^32, the greatest win is the greatest
-- one of the old and the new wins, and the record of a day is not below what was won this day.
pub wins-records :
    (zone : ℕ) (games : List (ℕ × ℤ)) (c : PlayerCharacterInfo)
    → c.wined < 2 ^ 32
    → int_lt c.day_maxwin c.this_day_max_win ≡ false
    → ((wins zone games c).wined ≡ (c.wined + length games) % 2 ^ 32)
      × ((wins zone games c).max_win ≡ greatest games c.max_win)
      × (int_lt (wins zone games c).day_maxwin (wins zone games c).this_day_max_win ≡ false)
wins-records zone games c small holds =
    (wins-wined zone games c small, wins-max_win zone games c, wins-day_maxwin zone games c holds)
