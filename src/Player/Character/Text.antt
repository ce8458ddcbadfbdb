-- ===== src/Player/Character/Text.antt =====
-- Properties as a JSON text: PlayerPropTable::ToJson (game_base/account/source/player_def.cpp).
use white_board_server.Prelude.{◌≡◌, refl, List, [], ◌∷◌, ◌++◌, if◌then◌else◌, append-nil, ap, ◌∙◌}
use white_board_server.Prelude.Int.{ℤ, pos, negsuc, is_pos}
use white_board_server.Containers.Ord.{Bytes, int_ord}
use white_board_server.Decimal.{print_int}
use white_board_server.Player.Props.{PlayerPropMap}

-- "\"%d\":%ld", which is shorter than the buffer.
abbrev pub print_entry : ℤ × ℤ → Bytes
print_entry (id, value) = 34 ∷ print_int id ++ 34 ∷ 58 ∷ print_int value

-- The loop over the entries after the first.
unfoldable pub print_rest : PlayerPropMap → Bytes
print_rest [] = []
print_rest ((id, value) ∷ m) =
    let later = print_rest m in
    if is_pos value then 44 ∷ print_entry (id, value) ++ later else later

-- PlayerPropTable::ToJson appended to an empty text; 123 and 125 are the braces.
pub props_to_json : PlayerPropMap → Bytes
unfolding print_rest
props_to_json [] = 123 ∷ 125 ∷ []
props_to_json ((id, value) ∷ m) =
    123 ∷ (if is_pos value then print_entry (id, value) else []) ++ print_rest m ++ 125 ∷ []

-- Texts with commas between them.
abbrev pub commas : List Bytes → Bytes
commas [] = []
commas (s ∷ []) = s
commas (s ∷ t ∷ rest) = s ++ 44 ∷ commas (t ∷ rest)

-- The texts of the entries whose values are not negative.
abbrev pub entries : PlayerPropMap → List Bytes
entries [] = []
entries ((id, value) ∷ m) = if is_pos value then print_entry (id, value) ∷ entries m else entries m

abbrev pub each_comma : List Bytes → Bytes
each_comma [] = []
each_comma (s ∷ rest) = 44 ∷ s ++ each_comma rest

print_rest-entries : (m : PlayerPropMap) → print_rest m ≡ each_comma (entries m)
unfolding print_rest
print_rest-entries [] = refl
print_rest-entries ((id, pos n) ∷ m) =
    ap (λ l. 44 ∷ print_entry (id, pos n) ++ l) (print_rest-entries m)
print_rest-entries ((id, negsuc n) ∷ m) = print_rest-entries m

commas-each : (s : Bytes) (rest : List Bytes) → s ++ each_comma rest ≡ commas (s ∷ rest)
commas-each s [] = append-nil s
commas-each s (t ∷ rest) = ap (λ l. s ++ 44 ∷ l) (commas-each t rest)

-- The text of a table whose first value is not negative is the entries that are not negative, with
-- commas between them, in braces. If the first value is negative and another one is not, a comma
-- comes before the first entry.
pub props_to_json-commas :
    (id : ℤ) (value : ℤ) (m : PlayerPropMap)
    → props_to_json ((id, value) ∷ m) ≡ (
        if is_pos value
        then 123 ∷ commas (entries ((id, value) ∷ m)) ++ 125 ∷ []
        else 123 ∷ each_comma (entries m) ++ 125 ∷ [])
unfolding props_to_json
props_to_json-commas id (pos n) m =
    let first = print_entry (id, pos n) in
    ap (λ l. 123 ∷ l ++ 125 ∷ [])
      (ap (λ l. first ++ l) (print_rest-entries m) ∙ commas-each first (entries m))
props_to_json-commas id (negsuc n) m = ap (λ l. 123 ∷ l ++ 125 ∷ []) (print_rest-entries m)
