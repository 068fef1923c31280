-- ===== src/Lib.antt =====
-- A model of the core of the game server, with theorems about it.
--
-- The server reads packets from sockets, decrypts them, lets the game act on them, and sends
-- packets back. The model follows this path and then the rules of the game itself.
--
-- Base: helpers. Base/Tests has the Boolean tests, Base/Lists lists over native numbers, Base/Bits
--   casts to fixed widths and disjoint fields joined by `|`.
-- Network/Xtea: `encrypt` and `decrypt` of src/xtea.cpp, on the memory as a list of bytes.
-- Network/Adler: `adlerChecksum` of src/tools.cpp.
-- Network/Message: the class NetworkMessage of src/networkmessage.h and src/networkmessage.cpp. The
--   record Message has its length, position and overrun flag, and the array as a list of bytes.
--   Message/Buffer is `memcpy` into and out of the array; Message/Codec names the fields that a
--   packet is made of.
-- Network/Output: OutputMessage of src/outputmessage.h; headers grow towards the array's start.
-- Network/Protocol: `onSendMessage`, `onRecvMessage`, the padding around the cipher and the
--   autosend buffer of src/protocol.cpp.
-- Network/Connection: the read handlers, the checksum test, the rate limit and the send queue of
--   src/connection.cpp. A completed read or write of the socket is a call of a handler.
-- Ban: the limit on connection attempts of src/ban.cpp.
-- Player/Experience: levels and experience of src/player.cpp and src/player.h.
-- Player/Skills, Player/Magic: `addSkillAdvance` and `addManaSpent` of src/player.cpp.
-- Player/Offline: `addOfflineTrainingTries` of src/player.cpp, with loops of its own.
-- Player/Death: what `death` of src/player.cpp takes of magic levels, skills and experience.
-- Player/Vitals: `changeHealth` of src/creature.cpp, `changeMana` and `changeSoul` of src/player.cpp.
-- Token: `generateToken` of src/tools.cpp and the test of a token of src/iologindata.cpp.
-- Loader: the tree of nodes of src/fileloader.cpp; the parser takes one byte at a time, and what
--   the source reads ahead is the mode of the next byte.
-- Wildcard: `insert`, `remove` and `findOne` of the tree of names of src/wildcardtree.cpp.
-- Place: the order, the distances and the range test of positions, of src/position.h.
-- Party: parties of src/party.cpp, the players' side of them in src/player.cpp and the commands of
--   src/game.cpp. The pointers between players and parties are maps of a record World.
-- Tasks: the scheduler of src/scheduler.cpp and the dispatcher of src/tasks.cpp; a turn of each
--   thread is a step, and so is a call from elsewhere, in any order.
-- House: access levels, access lists and the change of owner of src/house.cpp. House/Access reads
--   the text of a list; names are looked up in an argument, Directory.
-- Chat: the private channels of src/chat.cpp and the commands on them of src/game.cpp. The search
--   for a free number has 9900 tries, as in the source.
-- Path: `getPathMatching` of src/map.cpp with the nodes of the search, its condition in
--   src/creature.cpp, and `getNextPosition` of src/tools.cpp. A node is its index in the array; what
--   the map and the creature say of a position is an argument, Terrain.
-- Tiles: the quadtree of src/map.h and src/map.cpp, `getTile` and `setTile`. The tree is as deep as
--   the source makes it, 13 levels; a pointer to a leaf is the square that it is of.
--   Tiles/Spectators is `getSpectatorsInternal`, which follows the links between leaves;
--   Tiles/Creatures is `addCreature` of a leaf. Positions of creatures are an argument.
-- Props: `PropStream` and `PropWriteStream` of src/fileloader.h.
--
-- Numbers are natural numbers, with the wrap-around of their width written out; a signed field is
-- its bit pattern. A failed assertion, a read past the array and a call through a null pointer are
-- `none`. The array of a message has 24590 bytes; a read outside a shorter list gives 0.
--
-- Loops run on fuel or on the number of rounds left. The cipher's and the checksum's loops run a
-- number of rounds that the source fixes before the loop. The loop that raises a level has the
-- experience plus 1 as its fuel, which is enough since each level needs more experience; the one
-- that lowers it has the level, which falls each time. The loops that raise a skill or a
-- magic level, in training or offline, have what is granted plus 1: each level takes at least one. Those of a death have the
-- level, which falls each time, and a token's digits the number plus 1. The path search has a fuel of
-- its own, enough of which there is; the way back has the cost of the node that was found.
--
-- Arguments of the model are the scripts' handlers, the tries and the mana that the levels of a
-- skill and of magic need, which are powers of floating-point numbers, the share that a death
-- takes, the keyed hash of a token, the RSA cipher, the table of item types, the directory of
-- players and guilds, the terrain of a path search, the merging of two tiles, the positions of
-- creatures, whether a teleport succeeds, who is online and who fights, the address of a new party,
-- the service port's `make_protocol`, the clock and the limit of packets a second.
--
-- Not modelled: timers, locks and threads, the Lua bindings, the database, the XML loaders, floating
-- point, and the text and packets by which clients are told of a change.
pub mod Ban
pub mod Base
pub mod Chat
pub mod House
pub mod Loader
pub mod Network
pub mod Party
pub mod Path
pub mod Place
pub mod Player
pub mod Props
pub mod Tasks
pub mod Tiles
pub mod Token
pub mod Wildcard
