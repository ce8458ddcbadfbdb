-- ===== src/Player/Trade/Tests.antt =====
-- A manager with a cache of diamonds.
use white_board_server.Prelude.{◌≡◌, refl, none, some, [], ◌∷◌, ◌++◌, arith, take}
use white_board_server.Prelude.Int.{ℤ, pos}
use white_board_server.Player.Trade.{
  TradeRecordInfo, Caches, new_record, new_cache, get_cache, get_trade_records_list,
}
use white_board_server.Player.Trade.Latest.{
  newest, with_records, record_trades, record_trades-latest,
}

abbrev diamonds : ℤ
diamonds = pos 3

abbrev one : TradeRecordInfo
one = record new_record { change_account = 10 }

abbrev two : TradeRecordInfo
two = record new_record { change_account = 20 }

abbrev manager : Caches
manager = new_cache 7 diamonds ∷ []

unknown_property : get_trade_records_list (pos 1) manager ≡ none
unfolding get_trade_records_list
unknown_property = refl

record_trades-latest_example :
    get_cache diamonds
      (record_trades ((diamonds, one) ∷ (pos 1, one) ∷ (diamonds, two) ∷ []) manager)
    ≡ some (
        with_records
          (take 50 (newest diamonds ((diamonds, one) ∷ (pos 1, one) ∷ (diamonds, two) ∷ []) ++ []))
          (new_cache 7 diamonds))
unfolding get_cache
record_trades-latest_example =
    record_trades-latest diamonds ((diamonds, one) ∷ (pos 1, one) ∷ (diamonds, two) ∷ []) manager
      (new_cache 7 diamonds) refl (omega arith)
