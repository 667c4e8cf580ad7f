-- ===== src/Lib.antt =====
-- Verification library of scroller, a SQL database server in C. The core library, lib/core/src,
-- holds the data structures of the server and its client; the server, src/scrs, runs one process
-- for each connection, parses a query, executes it on tables, and sends the answer over a socket.
--
-- The parts and how they interact. Numbers that say how memory is laid out come from align.c. The
-- contexts of memory.c hand out aligned blocks, and all the blocks of a context go with it; the
-- growing array of array.c takes its block from the current context. The data of type.c are the
-- values of SQL; a grid (grid.c) is a page of rows of equal size, and a header grid lays out the
-- columns of a table at aligned offsets. The rows of a table lie in a chain of data grids
-- (mesh.c), whose pages have the global ids of gid.c, and the iterator of table.c goes through
-- the rows that a transaction sees. A sequence (sequence.c) is a table of one row with six bigint
-- cells. The flags of tran.c say which transactions committed, and so which rows a query sees.
-- The hash of ihash.c finds the entries of the caches, and the list over indices of ilist2.c
-- keeps their order of use; the cache of icache.c joins the two, and fdcache.c keeps the
-- descriptors of open files in one, pagecache.c the pages of files. Mesh and Table take the page
-- cache to keep the pages that a step uses. The send buffer of src/scrs/session.c collects an
-- answer and sends it in blocks; the client of scrc.c sends the query and takes the answer apart.
--
-- Which file models which part. Each module has the name of its part, its state as a record, and
-- one function for each operation, under the name of the source.
-- Align: lib/core/src/align.c. Align/Bits has the laws of the mask.
-- Memory: lib/core/src/memory.c and memory.h, the bump context as offsets, block sizes and bytes.
-- Memory/Blocks is about allocation, Memory/Realloc about realloc and free.
-- Array: lib/core/src/array.c and array.h. The allocator is a parameter: each call takes whether
-- the block was granted. Array/Stack is about put and pop.
-- Datum: lib/core/src/type.c and type.h. Datum/Compare is about integers, Datum/Text about
-- strings. Datum/Like models the matching of LIKE, with its pattern in Datum/Like/Pattern and its
-- loop in Datum/Like/Loop, and Datum/Sdup the printing of data.
-- Fdcache: lib/core/src/fdcache.c and fdcache.h, on Icache. The calls of the operating system are
-- parameters. Fdcache/Owner has the set of open descriptors, Fdcache/Touch and Fdcache/Owned are
-- about who owns them.
-- Gid: lib/core/src/gid.c and gid.h, the global id and the name of its file.
-- Grid: lib/core/src/grid.c and grid.h. Grid/Rows is about rows in their page, Grid/Columns about
-- the columns of a header grid. Grid/Bytes models lib/core/src/cell.c and cell.h, the values in
-- the bytes of a row, and Grid/Cells the data of a grid, by addresses that go over the ends of
-- rows; Grid/Frame and Grid/Stored are about what is written there.
-- Ihash: lib/core/src/ihash.c and ihash.h, nodes in a store, the chain nodes behind the buckets.
-- Ihash/Walk is about one search and one touch, Ihash/Iterate about the iterator. The other
-- children show the finite map: Ihash/Chain has the chain of a bucket as a list, Ihash/Map the
-- invariant, Ihash/Local the changes of one bucket, Ihash/Values and Ihash/Write writes to the
-- user data; Ihash/Extend, Ihash/Append, Ihash/Touch, Ihash/Outcome and Ihash/Put are about
-- insertion, Ihash/Release, Ihash/Unlink, Ihash/Split, Ihash/Leaving and Ihash/Erase about
-- erasure, Ihash/Clear about the empty hash.
-- Icache: lib/core/src/icache.c and icache.h, on Ihash and Ilist2: each entry of the hash keeps
-- the index of its node in the list. Icache/Order has the invariant of both, Icache/Members is
-- about the user data of the nodes, Icache/Touch is about keys that are there or find a node,
-- Icache/Evict about eviction.
-- Ilist2: lib/core/src/ilist2.c and ilist2.h, nodes in a store with links by index. Ilist2/Chain
-- has the segments of links and the invariant, Ilist2/Values the user data, and Ilist2/Clear,
-- Ilist2/Ends, Ilist2/Puts and Ilist2/Moves (with Ilist2/Steps) the operations.
-- Mesh: lib/core/src/mesh.c and mesh.h. A page is named by its global id, and a pointer to it is
-- that id. Mesh/Walk is about the iterator, Mesh/Rows and Mesh/Grow about the allocation of rows.
-- Pagecache: lib/core/src/pagecache.c and pagecache.h, on Icache, Ilist2 and Fdcache.
-- Pagecache/Owned has the invariant of the pages and the stack of their indices, which
-- Pagecache/Cleared starts; Pagecache/Loaded is about keys for which there is room,
-- Pagecache/Evict about the eviction.
-- Scrc: lib/core/src/scrc.c and scrc.h, the client. The socket is a parameter here too.
-- Scrc/Bytes has blocks of bytes in memory, Scrc/Refill and Scrc/Block are about the receive
-- buffer, Scrc/Row about rows, Scrc/Send about a request. Scrc/Header models the header lines and
-- trim, Scrc/Lines and Scrc/Parsed are about them.
-- Sequence: lib/core/src/sequence.c and sequence.h. Sequence/Laws is about single steps,
-- Sequence/Run about runs of sequence_nextval.
-- Session: src/scrs/session.c and session.h. The socket is a parameter: a list of the answers of
-- send(), one for each call. Session/Send is about the stream of bytes, Session/Served about the
-- sends that succeed.
-- Table: lib/core/src/table.c and table.h. Table/Hidden and Table/Visible are about the rows that
-- an iterator skips and sees.
-- Tran: lib/core/src/tran.c and tran.h, with the page of flags passed on. What is read outside of
-- the page is a parameter, and a write there has no result. Tran/Flags is about the flags and the
-- visibility of rows.
-- Prelude holds what the parts share. The modules named Examples hold runs of the operations and
-- the theorems at concrete states.
--
-- Integers. Unsigned words are natural numbers with their reduction written out where the source
-- can pass the end of the word; int64_t is an integer between its bounds with its reduction to 64
-- bits in two's complement, which is what the machine does where C leaves the overflow undefined.
-- An undefined index, -1, is the largest word. The asserts are off, as in a release build, but
-- for the one on the number in tran_flag_put.
--
-- Loops are recursion on the count that the source counts down or up to, so that no fuel is
-- needed: the nodes of ilist2_clear, the bytes that char2varchar and memcmp look at, the columns
-- that hgrid_get_column_idx goes through. The loop of send_block in Session recurs on the answers
-- of the socket. The loop of recv_block in Scrc takes fuel for one round more than there are
-- bytes to read, which is enough because each refill brings a byte or more. The loops of trim
-- take fuel for all the bytes of the receive buffer. The loop of like_data takes fuel for the
-- product of the two lengths and more, the count of digits in Datum/Sdup for twenty digits, the
-- loop of titor_next for the rows of the table, the loop of fdcache_clear for the nodes of the
-- cache. The walks of Ihash take fuel for one node more than there are chain nodes, and the
-- theorems about well-formed hashes say that it is enough.
--
-- Not modelled: printing for debugging, the mapping of pages, the children and parents of
-- contexts, the offsets of the parts of a cache in memory, the transaction commands, the opening
-- of a connection and the fields of an answer header in the client, the parser, the execution of
-- queries, and the processes, sockets and log files of the server.
pub mod Align
pub mod Array
pub mod Datum
pub mod Fdcache
pub mod Gid
pub mod Grid
pub mod Icache
pub mod Ihash
pub mod Ilist2
pub mod Memory
pub mod Mesh
pub mod Pagecache
pub mod Prelude
pub mod Scrc
pub mod Sequence
pub mod Session
pub mod Table
pub mod Tran
