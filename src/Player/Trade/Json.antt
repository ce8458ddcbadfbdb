-- ===== src/Player/Trade/Json.antt =====
-- Trade records in JSON: TradeRecordInfo and MultiTradeRecordInfo
-- (game_base/account/source/player_def.cpp).
pub mod Restoring
use white_board_server.Prelude.{
  ℕ, ◌-◌, ◌^◌, ◌%◌, Bool, true, false, not, Option, none, some, List, [], ◌∷◌, ◌++◌, ltb,
  if◌then◌else◌, text, length, map,
}
use white_board_server.Prelude.Int.{ℤ, pos, negsuc}
use white_board_server.Containers.Ord.{Bytes}
use white_board_server.Player.Json.{Rapidjson, c_str}
use white_board_server.Player.Json.Members.{add_members}
use white_board_server.Player.Trade.{TradeRecordInfo, new_record, MultiTradeRecordInfo}

-- An unsigned number of 32 bits as the signed one of the same bits.
unfoldable pub to_signed : ℕ → ℤ
to_signed n = if ltb n (2 ^ 31) then pos n else negsuc (2 ^ 32 - 1 - n)

module _ ⦃json : Rapidjson⦄ where
  abbrev pub record_members : TradeRecordInfo → List (Bytes × json.Value)
  record_members r =
      (text "acc_id_from", json.number (pos r.acc_id_from))
      ∷ (text "acc_id_to", json.number (pos r.acc_id_to))
      ∷ (text "property_id", json.number r.property_id)
      ∷ (text "change_amount", json.number (pos r.change_account))
      ∷ (text "from_nick", json.string (c_str r.from_nicheng))
      ∷ (text "to_nick", json.string (c_str r.to_nicheng))
      ∷ (text "trade_date", json.number (pos r.trade_date))
      ∷ (text "trade_type", json.number r.trade_type)
      ∷ []

  -- TradeRecordInfo::ToJson
  unfoldable pub record_to_json : TradeRecordInfo → json.Value
  unfolding add_members
  record_to_json r = add_members (record_members r) json.object

  -- A member that must be there with its type; `none` is that it is not.
  unfoldable pub uint_in : Bytes → json.Value → Option ℕ
  uint_in key o = elim (json.member key o) [
    | none ↦ none
    | some v ↦ if json.is_uint v then some (json.get_uint v) else none
  ]

  unfoldable pub uint64_in : Bytes → json.Value → Option ℕ
  uint64_in key o = elim (json.member key o) [
    | none ↦ none
    | some v ↦ if json.is_uint64 v then some (json.get_uint64 v) else none
  ]

  unfoldable pub string_in : Bytes → json.Value → Option Bytes
  string_in key o = elim (json.member key o) [
    | none ↦ none
    | some v ↦ if json.is_string v then some (json.get_string v) else none
  ]

  -- The type of a trade, which is eTradeType::trade_property_type where there is none.
  unfoldable pub trade_type_in : json.Value → ℤ
  trade_type_in o = elim (json.member (text "trade_type") o) [
    | none ↦ pos 1
    | some v ↦ if json.is_int v then json.get_int v else pos 1
  ]

  -- The texts, the date and the type, which are read after the numbers.
  unfoldable pub texts_from : json.Value → TradeRecordInfo → TradeRecordInfo × Bool
  unfolding string_in uint_in trade_type_in
  texts_from v r4 = elim (string_in (text "from_nick") v) [
    | none ↦ (r4, false)
    | some nick ↦
        let r5 : TradeRecordInfo = record r4 { from_nicheng = nick } in
        elim (string_in (text "to_nick") v) [
          | none ↦ (r5, false)
          | some nick' ↦
              let r6 : TradeRecordInfo = record r5 { to_nicheng = nick' } in
              elim (uint_in (text "trade_date") v) [
                | none ↦ (r6, false)
                | some date ↦ (record r6 { trade_date = date; trade_type = trade_type_in v }, true)
              ]
        ]
  ]

  -- TradeRecordInfo::FromJson: the record, of which a part may be read, and the result.
  unfoldable pub record_from_json : json.Value → TradeRecordInfo → TradeRecordInfo × Bool
  unfolding uint_in uint64_in texts_from to_signed
  record_from_json o r =
      if not (json.is_object o) then (r, false) else elim (uint_in (text "acc_id_from") o) [
        | none ↦ (r, false)
        | some from ↦
            let r1 : TradeRecordInfo = record r { acc_id_from = from } in
            elim (uint_in (text "acc_id_to") o) [
              | none ↦ (r1, false)
              | some to ↦
                  let r2 : TradeRecordInfo = record r1 { acc_id_to = to } in
                  elim (uint_in (text "property_id") o) [
                    | none ↦ (r2, false)
                    | some id ↦
                        let r3 : TradeRecordInfo = record r2 { property_id = to_signed id } in
                        elim (uint64_in (text "change_amount") o) [
                          | none ↦ (r3, false)
                          | some change ↦ texts_from o (record r3 { change_account = change })
                        ]
                  ]
            ]
      ]

  abbrev pub record_values : List TradeRecordInfo → List json.Value
  unfolding record_to_json
  record_values [] = []
  record_values (r ∷ rest) = record_to_json r ∷ record_values rest

  abbrev pub multi_members : MultiTradeRecordInfo → List (Bytes × json.Value)
  multi_members m =
      (text "acc_id_request_", json.number (pos m.acc_id_request))
      ∷ (text "count", json.number (to_signed (length m.trade_record_lst % 2 ^ 32)))
      ∷ (text "records", json.array (record_values m.trade_record_lst))
      ∷ []

  -- MultiTradeRecordInfo::ToJson
  pub multi_to_json : MultiTradeRecordInfo → json.Value
  unfolding add_members
  multi_to_json m = add_members (multi_members m) json.object

  -- The records of an array; a record that lacks a member is kept with what was read of it.
  unfoldable pub read_records : List json.Value → List TradeRecordInfo → List TradeRecordInfo
  unfolding record_from_json
  read_records [] l = l
  read_records (v ∷ rest) l = read_records rest (l ++ (record_from_json v new_record).0 ∷ [])

  -- MultiTradeRecordInfo::FromJson; the number of records is only compared for the log.
  pub multi_from_json : json.Value → MultiTradeRecordInfo → MultiTradeRecordInfo
  unfolding read_records uint_in
  multi_from_json o m =
      if json.is_object o
      then record m {
        acc_id_request = elim (uint_in (text "acc_id_request_") o) [
          | none ↦ m.acc_id_request
          | some n ↦ n
        ];
        trade_record_lst = elim (json.member (text "records") o) [
          | none ↦ m.trade_record_lst
          | some v ↦
              if json.is_array v
              then read_records (json.elements v) m.trade_record_lst
              else m.trade_record_lst
        ];
      }
      else m
