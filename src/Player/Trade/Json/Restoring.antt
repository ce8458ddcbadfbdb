-- ===== src/Player/Trade/Json/Restoring.antt =====
-- Trade records, written as JSON and read back.
use white_board_server.Prelude.{
  ℕ, ◌^◌, ◌<◌, ◌≡◌, refl, sym, ap, ◌∙◌, Bool, true, Option, none, some, List, [], ◌∷◌, ◌++◌,
  if◌then◌else◌, text, map, All, arith, append_assoc, append-nil,
}
use white_board_server.Prelude.Int.{pos}
use white_board_server.Containers.Ord.{Bytes, bytes_eq}
use white_board_server.Player.Json.{Rapidjson, c_str, fits}
use white_board_server.Player.Json.Members.{
  add_members, listed, member-add_members, is_object-add_members,
}
use white_board_server.Player.Trade.{TradeRecordInfo, new_record, MultiTradeRecordInfo}
use white_board_server.Player.Trade.Json.{
  to_signed, record_members, record_to_json, uint_in, uint64_in, string_in, trade_type_in,
  texts_from, record_from_json, record_values, multi_members, multi_to_json, read_records,
  multi_from_json,
}

-- The numbers have the ranges of their types, and the number of the property is not negative.
abbrev pub RecordFits : TradeRecordInfo → Type 0
RecordFits r =
    (r.acc_id_from < 2 ^ 32)
    × (r.acc_id_to < 2 ^ 32)
    × ((id : ℕ) × (r.property_id ≡ pos id) × (id < 2 ^ 31))
    × (r.change_account < 2 ^ 64)
    × (r.trade_date < 2 ^ 32)
    × (fits 31 r.trade_type ≡ true)

-- A record with its texts up to a byte 0.
abbrev pub cut_texts : TradeRecordInfo → TradeRecordInfo
cut_texts r = record r { from_nicheng = c_str r.from_nicheng; to_nicheng = c_str r.to_nicheng }

module _ ⦃json : Rapidjson⦄ (key : Bytes) (members : List (Bytes × json.Value)) where
  uint_in-listed :
      (n : ℕ)
      → listed key members ≡ some (json.number (pos n))
      → n < 2 ^ 32
      → uint_in key (add_members members json.object) ≡ some n
  unfolding uint_in
  uint_in-listed n e small = ground (
    arith,
    member-add_members key members,
    e,
    json.is_uint-number (pos n),
    json.get_uint-number n small,
    small,
  )

  uint64_in-listed :
      (n : ℕ)
      → listed key members ≡ some (json.number (pos n))
      → n < 2 ^ 64
      → uint64_in key (add_members members json.object) ≡ some n
  unfolding uint64_in
  uint64_in-listed n e small = ground (
    arith,
    member-add_members key members,
    e,
    json.is_uint64-number (pos n),
    json.get_uint64-number n small,
    small,
  )

  string_in-listed :
      (s : Bytes)
      → listed key members ≡ some (json.string s)
      → string_in key (add_members members json.object) ≡ some s
  unfolding string_in
  string_in-listed s e =
      ground (
        arith,
        member-add_members key members,
        e,
        json.is_string-string s,
        json.get_string-string s,
      )

module _ ⦃json : Rapidjson⦄ where
  trade_type_in-record :
      (r : TradeRecordInfo)
      → fits 31 r.trade_type ≡ true
      → trade_type_in (add_members (record_members r) json.object) ≡ r.trade_type
  unfolding trade_type_in bytes_eq
  trade_type_in-record r small =
      ap
        (λ (o : Option json.Value). elim o [
          | none ↦ pos 1
          | some v ↦ if json.is_int v then json.get_int v else pos 1
        ])
        (member-add_members (text "trade_type") (record_members r))
      ∙ rw (json.is_int-number r.trade_type, small) (json.get_int-number r.trade_type small)

  texts_from-record :
      (r held : TradeRecordInfo)
      → r.trade_date < 2 ^ 32
      → fits 31 r.trade_type ≡ true
      → texts_from (add_members (record_members r) json.object) held ≡ (
        record held {
          from_nicheng = c_str r.from_nicheng;
          to_nicheng = c_str r.to_nicheng;
          trade_date = r.trade_date;
          trade_type = r.trade_type;
        },
        true,
      )
  unfolding texts_from bytes_eq
  texts_from-record r held date type =
      let ms = record_members r in
      rw
        (
          texts_from,
          string_in-listed (text "from_nick") ms (c_str r.from_nicheng) refl,
          string_in-listed (text "to_nick") ms (c_str r.to_nicheng) refl,
          uint_in-listed (text "trade_date") ms r.trade_date refl date,
          trade_type_in-record r type,
        )
        refl

  -- A number that is not negative as an int is the one that was written.
  to_signed-small : (n : ℕ) → n < 2 ^ 31 → to_signed n ≡ pos n
  unfolding to_signed
  to_signed-small n small = ground (arith, small)

  record_from_json-to_json :
      (r held : TradeRecordInfo)
      → RecordFits r
      → record_from_json (record_to_json r) held ≡ (cut_texts r, true)
  unfolding record_from_json record_to_json bytes_eq
  record_from_json-to_json r held (from, to, (id, e, id_small), change, date, type) =
      let ms = record_members r in
      rw
        (
          is_object-add_members ms json.object json.is_object-object,
          uint_in-listed (text "acc_id_from") ms r.acc_id_from refl from,
          uint_in-listed (text "acc_id_to") ms r.acc_id_to refl to,
          uint_in-listed (text "property_id") ms id (ap (λ z. some (json.number z)) e)
              (omega (arith, id_small)),
          uint64_in-listed (text "change_amount") ms r.change_account refl change,
          to_signed-small id id_small,
          sym e,
        )
        (texts_from-record r _ date type)

  read_records-record_values :
      (rs held : List TradeRecordInfo)
      → All RecordFits rs
      → read_records (record_values rs) held ≡ held ++ map cut_texts rs
  unfolding read_records record_values
  read_records-record_values [] held fitting = sym (append-nil held)
  read_records-record_values (r ∷ rs) held (fit, fitting) =
      ap (λ (t : TradeRecordInfo × Bool). read_records (record_values rs) (held ++ t.0 ∷ []))
        (record_from_json-to_json r new_record fit)
      ∙ read_records-record_values rs (held ++ cut_texts r ∷ []) fitting
      ∙ append_assoc held (cut_texts r ∷ []) (map cut_texts rs)

  -- Reading what MultiTradeRecordInfo::ToJson made into any held list takes the account of the
  -- request and appends every record in its order, with its texts up to a byte 0, when the
  -- account is below 2 ^ 32 and every record fits.
  multi_from_json-to_json :
      (m held : MultiTradeRecordInfo)
      → m.acc_id_request < 2 ^ 32
      → All RecordFits m.trade_record_lst
      → multi_from_json (multi_to_json m) held ≡ record held {
        acc_id_request = m.acc_id_request;
        trade_record_lst = held.trade_record_lst ++ map cut_texts m.trade_record_lst;
      }
  unfolding multi_from_json multi_to_json bytes_eq
  multi_from_json-to_json m held small fitting =
      let ms = multi_members m in
      rw
        (
          multi_from_json,
          is_object-add_members ms json.object json.is_object-object,
          uint_in-listed (text "acc_id_request_") ms m.acc_id_request refl small,
        )
        (ap
            (λ (o : Option json.Value). record held {
              acc_id_request = m.acc_id_request;
              trade_record_lst = elim o [
                | none ↦ held.trade_record_lst
                | some v ↦
                    if json.is_array v
                    then read_records (json.elements v) held.trade_record_lst
                    else held.trade_record_lst
              ];
            })
            (member-add_members (text "records") ms)
          ∙ rw
              (
                json.is_array-array (record_values m.trade_record_lst),
                json.elements-array (record_values m.trade_record_lst),
                read_records-record_values m.trade_record_lst held.trade_record_lst fitting,
              )
              refl)
