-- ===== src/Player/Trade.antt =====
-- The records of a player's trades: TradeRecordInfo, MultiTradeRecordInfo, TradeRecordsCache and
-- TradeRecordsCacheManager (game_base/account/player_def.h and source/player_def.cpp).
pub mod Latest
pub mod Json
pub mod Tests
use white_board_server.Prelude.{
  ℕ, ◌+◌, ◌%◌, ◌^◌, Bool, true, false, Option, none, some, List, [], ◌∷◌, ◌++◌, ltb, if◌then◌else◌,
  length,
}
use white_board_server.Prelude.Int.{ℤ, pos, int_eq}
use white_board_server.Containers.Ord.{Bytes}

pub record TradeRecordInfo : Type 0 where
  pub acc_id_from : ℕ
  pub acc_id_to : ℕ
  pub trade_date : ℕ
  pub property_id : ℤ
  pub change_account : ℕ
  pub from_nicheng : Bytes
  pub to_nicheng : Bytes
  pub trade_type : ℤ

-- TradeRecordInfo::TradeRecordInfo
abbrev pub new_record : TradeRecordInfo
new_record = record {
  acc_id_from = 0;
  acc_id_to = 0;
  trade_date = 0;
  property_id = pos 0;
  change_account = 0;
  from_nicheng = [];
  to_nicheng = [];
  trade_type = pos 0;
}

pub record MultiTradeRecordInfo : Type 0 where
  pub trade_record_lst : List TradeRecordInfo
  pub acc_id_request : ℕ

abbrev pub g_trade_records_limit : ℕ
g_trade_records_limit = 50

-- std::vector::pop_back
unfoldable pub pop_back : List TradeRecordInfo → List TradeRecordInfo
pop_back [] = []
pop_back (r ∷ []) = []
pop_back (r ∷ s ∷ rest) = r ∷ pop_back (s ∷ rest)

-- UpdateRecordsList
pub update_records_list : TradeRecordInfo → MultiTradeRecordInfo → MultiTradeRecordInfo
unfolding pop_back
update_records_list r m =
    let record_count = length m.trade_record_lst % 2 ^ 32 in
    if ltb record_count g_trade_records_limit
    then record m { trade_record_lst = r ∷ m.trade_record_lst }
    else record m { trade_record_lst = r ∷ pop_back m.trade_record_lst }

-- operator=, which appends.
pub assign : MultiTradeRecordInfo → MultiTradeRecordInfo → MultiTradeRecordInfo
assign m other = record m { trade_record_lst = m.trade_record_lst ++ other.trade_record_lst }

pub record TradeRecordsCache : Type 0 where
  pub is_records_init : Bool
  pub query_semaphore : ℕ
  pub trade_records : MultiTradeRecordInfo
  pub property_type : ℤ

-- TradeRecordsCache::TradeRecordsCache, with what acc_id_request_ happens to hold.
abbrev pub new_cache : ℕ → ℤ → TradeRecordsCache
new_cache garbage property_type = record {
  is_records_init = false;
  query_semaphore = 0;
  trade_records = record { trade_record_lst = []; acc_id_request = garbage };
  property_type = property_type;
}

-- TradeRecordsCacheManager: its list of caches.
abbrev pub Caches : Type 0
Caches = List TradeRecordsCache

-- GetTradeRecordsCache, to read.
unfoldable pub get_cache : ℤ → Caches → Option TradeRecordsCache
get_cache p [] = none
get_cache p (c ∷ rest) = if int_eq c.property_type p then some c else get_cache p rest

-- GetTradeRecordsCache, to write through the pointer.
pub change_cache : ℤ → (TradeRecordsCache → TradeRecordsCache) → Caches → Caches
change_cache p f [] = []
change_cache p f (c ∷ rest) =
    if int_eq c.property_type p then f c ∷ rest else c ∷ change_cache p f rest

unfoldable pub get_trade_records_list : ℤ → Caches → Option MultiTradeRecordInfo
unfolding get_cache
get_trade_records_list p m = elim (get_cache p m) [ none ↦ none | some c ↦ some c.trade_records ]

pub is_cache_records_init : ℤ → Caches → Bool
unfolding get_cache
is_cache_records_init p m = elim (get_cache p m) [ none ↦ false | some c ↦ c.is_records_init ]

pub get_query_semaphore : ℤ → Caches → ℕ
unfolding get_cache
get_query_semaphore p m = elim (get_cache p m) [ none ↦ 1 | some c ↦ c.query_semaphore ]

pub set_records_init : ℤ → Bool → Caches → Caches
unfolding change_cache
set_records_init p is_init =
    change_cache p (λ (c : TradeRecordsCache). record c { is_records_init = is_init })

pub increase_query_semaphore : ℤ → Caches → Caches
unfolding change_cache
increase_query_semaphore p =
    change_cache p
      (λ (c : TradeRecordsCache). record c { query_semaphore = (c.query_semaphore + 1) % 256 })

pub decrease_query_semaphore : ℤ → Caches → Caches
unfolding change_cache
decrease_query_semaphore p =
    change_cache p
      (λ (c : TradeRecordsCache). record c { query_semaphore = (c.query_semaphore + 255) % 256 })

pub update_trade_records_list : ℤ → TradeRecordInfo → Caches → Caches
unfolding change_cache update_records_list
update_trade_records_list p r =
    change_cache p (λ (c : TradeRecordsCache). record c {
      trade_records = update_records_list r c.trade_records;
    })

-- InitTradeRecordsList; the property's type is converted to int32_t, which keeps every type there is.
pub init_trade_records_list : ℤ → MultiTradeRecordInfo → Caches → Caches
unfolding change_cache assign
init_trade_records_list p records =
    change_cache p
      (λ (c : TradeRecordsCache). record c { trade_records = assign c.trade_records records })
