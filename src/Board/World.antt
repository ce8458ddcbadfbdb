-- ===== src/Board/World.antt =====
-- The store that the white board's objects share: the rooms and the sessions behind their pointers,
-- the maps that own them, and what has been written to connections. A method takes the store and
-- returns its result and the new store; `none` is undefined behaviour, such as a use after free.
mod Defs
mod Rules
unfoldable pub use Defs.{load_room, load_session, store_room, store_session, write_packet}
pub use Defs.{Room, Session, World, M, pure, fault, ◌>>=◌, ◌>>◌, update, write_room, write_session}
pub use Rules.*
