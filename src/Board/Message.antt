-- ===== src/Board/Message.antt =====
-- The messages of the white board (account_opcode_def.h) and the classes that protoc generates.
-- Serialising is the protobuf library's: it is the parameter `Codec`.
use Prim.Native.String.{String}
use mathlib.Core.Option
use white_board_server.Prelude.{ℕ, ◌≡◌, Bool, true, Option, List}
use white_board_server.Containers.Ord.{Bytes}

-- ShapeErrorCode: the source's enumerators, which count from 0.
pub data ShapeErrorCode : Type 0 where
  common_error no_in_room packet_wrong id_not_exist wrong_operation : ShapeErrorCode
  leave_when_not_in_room create_room_when_key_exist : ShapeErrorCode
  copy_room_when_src_key_no_exist copy_room_when_des_key_exist : ShapeErrorCode
  enter_room_not_exist sync_player_list_no_room delete_room_not_exist : ShapeErrorCode
  room_delete_you_out room_operation_success : ShapeErrorCode

-- AccountOpcode: the source counts from ProtoBuff_Login = 100.
abbrev pub proto_buff_login : ℕ
proto_buff_login = 100

abbrev pub proto_buff_room_operate : ℕ
proto_buff_room_operate = 101

abbrev pub proto_buff_sync_room_list : ℕ
proto_buff_sync_room_list = 102

abbrev pub proto_buff_sync_player_list : ℕ
proto_buff_sync_player_list = 103

abbrev pub proto_buff_add_sharp : ℕ
proto_buff_add_sharp = 104

abbrev pub proto_buff_remove_sharp : ℕ
proto_buff_remove_sharp = 105

abbrev pub proto_buff_error_info : ℕ
proto_buff_error_info = 106

-- WhiteBoardMessage: every field is optional, and `none` is a field that is not set.
pub record WhiteBoardMessage : Type 0 where
  pub shape_id : Option ℕ
  pub shape_type : Option Bytes
  pub shape_data : Option Bytes
  pub shape_property : Option Bytes

-- The accessor gives the default 0 for a field that is not set.
abbrev pub shapeid : WhiteBoardMessage → ℕ
shapeid x = Option.get_or x.shape_id 0

pub record WhiteBoardMessageList : Type 0 where
  pub msgid : Option Bytes
  pub shape_object : List WhiteBoardMessage

pub record RemoveShape : Type 0 where
  pub msgid : Option Bytes
  pub shape_id : Option ℕ

abbrev pub remove_shapeid : RemoveShape → ℕ
remove_shapeid x = Option.get_or x.shape_id 0

-- The accessors' values: 0 and the empty string stand for a field that is not set.
pub record RoomOperate : Type 0 where
  pub oprate_type : ℕ
  pub use_name : Bytes
  pub room_key_origin : Bytes
  pub room_key_destination : Bytes

pub record ErrorResp : Type 0 where
  pub error_code : ShapeErrorCode
  pub extra_info : ℕ
  pub error_description : String

-- ProtobufTranscode: an opcode and a body.
pub record Packet : Type 0 where
  pub opcode : ℕ
  pub body : Bytes

-- ParseFromString fills the message as far as it gets and returns whether it succeeded.
-- The law is the documented round trip of SerializeAsString and ParseFromString.
pub record Codec : Type 0 where
  pub parse_shape : Bytes → Bool × WhiteBoardMessage
  pub serialize_shape : WhiteBoardMessage → Bytes
  pub parse_shapes : Bytes → Bool × WhiteBoardMessageList
  pub serialize_shapes : WhiteBoardMessageList → Bytes
  pub parse_remove : Bytes → Bool × RemoveShape
  pub serialize_remove : RemoveShape → Bytes
  pub parse_operate : Bytes → Bool × RoomOperate
  pub serialize_player_list : List Bytes → Bytes
  pub serialize_room_list : List Bytes → Bytes
  pub serialize_error : ErrorResp → Bytes
  pub parse-serialize_shape : (x : WhiteBoardMessage) → parse_shape (serialize_shape x) ≡ (true, x)
