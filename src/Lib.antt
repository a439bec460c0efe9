-- ===== src/Lib.antt =====
-- libyod, a C library of containers, byte codecs, checksums, event loops and servers: a model of its
-- containers and codecs, and theorems on it.
--
-- The program. libyod/common.c has what the other parts share: integers in byte buffers,
-- hexadecimal text, URLs, paths, counted strings and a checksum. libyod/crypto.c has MD5 and CRC-32,
-- and writes digests with the digits of common.c. libyod/htable.c is a hash table, which keeps
-- the order of insertion; the HTTP server of libyod/shttpd.c keeps its routes in it, and the texts of
-- its status codes in the tree of libyod/rbtree.c.
--
-- The files.
-- Prelude: names of the libraries, tests on numbers, lists over native numbers (Lists), byte
--   buffers (Memory), masks as arithmetic (Bits).
-- Links: doubly linked lists in memory; the edits that the containers make (Edit, Insert), a list
--   seen from its end (Reverse), and what a loop over it gives to `vfree` (Release).
-- HTable: libyod/htable.c. `HTable` is `yod_htable_t` together with one map for each field of the
--   nodes; an address is a number and NULL is 0. Each function has the name of the C function
--   without its prefix: new, free, ref, reset, add, del, find, resize, str_nkey, and count_of,
--   to_head, to_tail, to_next, to_prev for count, head, tail, next and prev. The steps inside add
--   and del are functions of their own. Valid has the invariant `IsTable` and the abstract view, a
--   partial map from keys to values; Chain, Resize, Key, Append, Add, Unlink, Del, Cursor, Release
--   and Hash have the proofs on the operations.
-- RbTree: libyod/rbtree.c. Shape has the fields that the balancing reads and the rotations, State
--   the record `RbTree`, which is `yod_rbtree_t` with one map for each field of the nodes, and new,
--   find and count, Insert and Balance `add` and its loop, Remove and Fixup `del` and its loop, Visit
--   head, tail, next, prev, free and print, under names as for the hash table. Tree has binary trees
--   of addresses, trees with a hole, and when a memory represents them; Rotate and its children show
--   that the rotations do what they are called; Holds is what the proofs use of a memory, seen from
--   one node; Colors has what makes a tree red-black; Rebalance has the rounds and the loop of `add`;
--   Order has the order of the keys; Valid has the invariant `IsRbTree`, the abstract view, a list of
--   entries, and find; Place and Add have `add`, Depth the length of a search, Cursor the walks and
--   free. For `del`, Repair has the rounds and the loop, and Extract the cut in front of it: Lift puts
--   a subtree into the place of the node above it, Least finds the leftmost node, Rename gives it the
--   place of the node that goes, Single is the case of at most one child, Double and Node that of two,
--   Chosen all of them; Del has the list and the whole.
-- Bytes: the integers of libyod/common.c, get_ and set_uint16, uint32, uint64 (Fixed), vint32 and
--   vint64 (Vint), and its fields text and blob, a length in front of bytes (Field).
-- Text: libyod/common.c again, byte2hex, hex2byte, blob2hex and hex2blob (Hex), urlencode and
--   urldecode (Url), convpath (Path), chksum (Chksum), strncpy and strcpy (Strings).
-- Crypto: libyod/crypto.c, crc32 (Crc32), md5enc, md5str and md5file (Md5); Md5/Reference has MD5 as
--   RFC 1321 defines it.
--
-- Conventions. A byte, a character and a machine word are numbers, with their wrap-around written
-- out. A buffer is the list of its bytes; a read or a store outside it, or through NULL, is `none`. What
-- `malloc` and `realloc` return is an argument. The loops of the table and of set_vint are `none` on no fuel;
-- those of MD5 and urldecode keep what they have then.
--
-- Fuel. A loop over a chain, a list or a way down a tree has one round more than the container has
-- entries; the theorems on a well-formed one show that it ends before. The loops over data have its
-- length as fuel: the loop of `md5_update` takes 64 bytes in a round, that of `urldecode` one or
-- three characters, and the loops of `set_vint32` and `set_vint64` break after five and nine rounds.
--
-- Bounds. The table theorems ask for fewer than 2^62 or 2^64 entries, where the size can still be
-- doubled or the count has not wrapped; a piece of data for MD5 has fewer than 2^32 bytes, as the
-- code casts its length.
--
-- Not modelled: the mutex of a table or a tree, debug output, that `free` makes the address of a node
-- invalid, floating point numbers, ip2long and long2ip, time and files; jvalue.c, evloop.c, server.c, shttpd.c, dbconn.c,
-- thread.c, stdlog.c, socket.c and system.c.
pub mod Prelude
pub mod Bytes
pub mod Crypto
pub mod HTable
pub mod Links
pub mod RbTree
pub mod Text
