-- ===== src/Lib.antt =====
-- The white board server: rooms in which players draw together, and the server parts around it.
--
-- Containers models the standard library's std::map and std::set: Containers/Ord is operator<,
-- Containers/Map and Containers/Set are the containers, in ascending order of their keys.
--
-- Board models game_base/account/source and its opcodes:
--   Board/Message     account_opcode_def.h and the protobuf messages. Serialising is generated
--                     code, so it is the parameter `Codec` with its documented round trip.
--   Board/World       the store: Room (room.h), PlayerSession (player_session.h), the maps of
--                     RoomManager, PlayerManager and AccountServicePimpl, and what was written to
--                     connections. A method is a function of the store into Option: `none` is
--                     undefined behaviour (reading a freed object or an erased iterator).
--   Board/Room        room.cpp, method by method; `now` is what time(nullptr) returns.
--   Board/Manager     room_manager.cpp: the requests on rooms and the sweep of Update.
--   Board/Session     player_session.cpp: the dispatch of requests and their handlers.
--   Board/Account     player_manager.cpp and account_service_pimpl.cpp: connections come, send
--                     packets and go. Board/Account/History makes runs of the server of these.
--   Board/Invariant   the store's well-formedness.
--   Board/Tests       a concrete codec and the theorems at concrete stores.
-- Poker models DN_application/DN_Account/dn_poker.h and dn_poker.cpp:
--   Poker/Card        DNOnePoker and the comparisons of two cards.
--   Poker/Deck        DNOneDeckPoker: laying out, shuffling and dealing. rand() is a function that
--                     gives the result of each call.
--   Poker/Group       DNGroupPoker, a hand of five cards, and the types of hands.
--   Poker/Cow         findCow, and in its children Claim and Compare hasCow, calcCowData and
--                     compareGroupPoker. std::sort is the parameter `Sorter`, which keeps the pairs
--                     and puts their values in order.
--   Poker/Check       CheckCowWithPokerInfo: `none` is a write outside its array.
--   Poker/Tests       concrete hands and decks, and the theorems applied to them.
--   Poker/Gen         DNPokerSet, PokerTypeRateConfig and DNPokerGen up to the choice of a set.
--   Poker/Draw        DNGroupPoker::Confuse, the draw from a set, and Init. The loop of Confuse runs
--                     on fuel; if each colour comes in any `gap` calls of rand() in a row, five times
--                     `gap` is enough (Poker/Draw/Colours).
-- The values and colours of cards are natural numbers; the game gives values up to 13 and colours up
-- to 4. Ranges of values for which the array of a deck is too small are `none`.
--
-- Wire models framework/server/transcode.cpp, transcode_packet.cpp and transcode_protobuf.cpp: buffers,
-- framing, and the path of a packet. A buffer grows by a loop on fuel; its fuel is the number of bytes
-- that are needed, which is enough (Wire/Numbers). Dispatch models the registration of
-- opcodes of framework/server/packet_dispatcher.cpp.
--
-- Resolver models framework/server/dependencyResolver.cpp, the order in which services start.
-- The rounds of TopSort are as many as the services. Services models ServiceManager
-- (framework/server/service_manager.cpp), which asks the resolver for the order; the virtual methods of
-- a service are a parameter, a function of its name and state, and the calls are recorded.
--
-- Player models game_base/account/player_def.h and source/player_def.cpp:
--   Player/Account    AccountInfo, stPlayerInvite and PlayerGetSpreeLimited in packets.
--   Player/Options    CG_Options in packets.
--   Player/Property   the numbers of property_def.h.
--   Player/Props      PlayerPropTable.
--   Player/Changes    stOnePropertyChange and PlayerPropertyChange.
--   Player/Character  PlayerCharacterInfo with its activities and properties, in packets and in JSON.
--                     rapidjson is not part of the repository: Player/Json has what is relied on as
--                     the parameter `Rapidjson`, and Player/Json/Examples has values that fulfil it.
--   Player/Trade      the caches of trade records, and trade records in JSON.
-- Wire/Stream holds the operators << and >> of PacketTranscode that these use, and Wire/Stream/Trips
-- how writers and readers that fit together are put in sequence.
--
-- LoginReward, InviteCode, Spree (the gifts for being online) and Winning (the records of won games)
-- model parts of DN_application/DN_Account/dn_player.cpp, the first with
-- IsSameDay of framework/base/cb_time.cpp. Decimal has printf's %d and atoi; the fuel of its digits is
-- the number itself.
--
-- AiState models framework/base/CbStateMachine.h and CbAIObj.cpp. A method of a state may change all of
-- the object that it gets.
--
-- BufferQueue models framework/base/double_buffer_queue.h, with which threads hand items to the one
-- that pops: a push is two events, and other threads' events may come between them.
--
-- A packet's bytes are cut by IsDataEnough, read by PacketTranscode and routed by the Dispatcher's
-- rules to a service. A packet of the white board goes from AccountServicePimpl::OnRecvPacket to
-- PlayerSession::HandleRequest, from there to RoomManager or to the session's Room, which write to the
-- sessions' connections.
--
-- A pointer is an address, and an object that is freed is gone from the heap; addresses are given in
-- order and never again. Loops over maps and sets are recursion on their entries and need no fuel. Ids
-- are 32-bit and wrap around.
--
-- Not modelled: logging, sockets and their threads (framework/server/tcp_*.cpp), the clients of
-- RabbitMQ, Redis, MySQL and ZooKeeper, Lua, configuration, and vendored code (mongoose, tinyxml,
-- lua_tinker, csv_parser), which are input and output or third-party.
pub mod AiState
pub mod Board
pub mod BufferQueue
pub mod Containers
pub mod Decimal
pub mod Dispatch
pub mod InviteCode
pub mod LoginReward
pub mod Player
pub mod Poker
pub mod Prelude
pub mod Resolver
pub mod Services
pub mod Spree
pub mod Winning
pub mod Wire
