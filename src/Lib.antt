-- ===== src/Lib.antt =====
-- A model of the websocket server in demo/src, a small nginx, and what is proved of it.
--
-- A worker takes a connection from its table (demo/src/core/ngx_connection.c), whose memory comes from
-- a pool (demo/src/core/ngx_palloc.c), and reads a request of HTTP/1.1 with the two parsers of
-- demo/src/http/ngx_http_parse.c, into the fields of `ngx_http_request_t`. The server answers the upgrade
-- with a key made by SHA-1 (demo/src/core/ngx_sha1.c) and Base64 (demo/src/core/ngx_string.c), finds the
-- channel of the connection in a hash table (demo/src/core/ngx_hash.c), and sends messages in websocket
-- frames (demo/src/http/ngx_websocket.c).
--
-- Common: lists, tests, bits and memory over the native numbers. Common/Scan is the loop
--   `for (p = b->pos; p < b->last; p++) switch (state)` of the parsers: a round goes on or stops.
--   Its fuel is the number of bytes left, which suffices since no round moves back (`loop_fuel`).
-- Http/Request: the fields, the codes and the window of the buffer. A pointer is an address and NULL
--   is 0; memory is a function from addresses to bytes, and no parser writes to it.
-- Http/RequestLine: `ngx_http_parse_request_line`, one `step_` function for each state with more than
--   one branch. Its children state what it reads (Complete), the order of the fields in each state
--   (Fields), parsing in pieces (Resume), which bytes are read at all (Window), and when only those that have
--   arrived are (Arrived).
-- Http/HeaderLine: `ngx_http_parse_header_line`, with the same children, and Name and Read for the two
--   halves of a line. The array `lowcase_header` is a list of 32 bytes.
-- Queue: the macros of demo/src/core/ngx_queue.h and the functions of ngx_queue.c. Memory is a pair of
--   functions from addresses to addresses. Ring says what list a queue holds, Change and Contents what
--   an insertion and a removal do to it; Sort and Insertion are about `ngx_queue_sort`, Middle about
--   `ngx_queue_middle`. Their loops have fuel, of which more than the number of elements is enough.
-- Connection: the fields of a connection and of its write event, and `ngx_unix_send` of
--   demo/src/os/unix/ngx_send.c (Send). Connection/Table is the table of connections of
--   demo/src/core/ngx_connection.c with its list of free ones: making it, taking, closing, draining, and
--   the test for stale events of demo/src/event/ngx_epoll.c. The links of a free connection are indices,
--   the queue of reusable ones is a list. Of the read handlers that draining calls,
--   `ngx_http_wait_request_handler` closes a marked connection, and `ngx_http_empty_handler` and
--   `ngx_websocket_wait_frame_handler` do nothing; what the others do is an argument of `get_connection`.
--   `cycle->files` is never set and is left out. Free and Steps are about one operation, Drain
--   and Stuck about `ngx_get_connection`, Sound and Stale about what happens to a table in many steps.
-- Http/Response: `ngx_websocket_handler`, the writer and the end of a request of
--   demo/src/http/ngx_http_request.c. What the system answers is a list, one
--   element for a round of the writer, and a writer that still runs at the end of the list has no
--   result. Outcome and Serving are about one call of the writer, Handshake about a
--   request and its write events.
-- Http/Reading: `ngx_http_process_request_line` with `ngx_http_read_request_header`, an input of the
--   system for each round; Parts and Pieces are about a line that comes in several of them.
-- Http/Waiting: `ngx_http_wait_request_handler`, the first read of a connection, with the buffer that it
--   takes from the pool and gives back (Buffer, First). The size of `ngx_buf_t` is an argument.
-- Http/HeaderLoop: `ngx_http_process_request_headers`, the loop around the parser of the headers, which
--   builds the list of headers; Block says what a whole block of headers is, Taken and Complete what is
--   made of it.
-- Http/Headers: how a header that was read is put into small letters and compared with the names of the
--   handshake; Key is about the header with the key.
-- Sha1: Block is `ngx_sha1_body`, Context the other three functions; words are kept below 2^32 and
--   the number of bytes below 2^64. Stream, Update and Digest take a context to the text that it has
--   taken in. The registers that the rounds use are the standard's, tested on "abc".
-- Encoding/Base64: `ngx_encode_base64`; RoundTrip has a decoder by arithmetic.
-- HashTable: `ngx_hash_table_new`, `_insert` and `_lookup`; a chain is a list of pairs, and whether
--   `malloc` and `calloc` return memory is an argument. Chains counts the pairs of a key, so that the
--   content of a table is told without its order; Rehash, Lookup, Insert and Map build on that.
--   The bound of 2^60 entries keeps the products of the code from wrapping around.
-- Websocket/Frame: `ngx_websocket_frame_encode`; Websocket/Accept: `ngx_websocket_build_accept_key` of
--   demo/src/http/ngx_http_request.c.
-- Websocket/Channels: the handlers of demo/src/http/ngx_websocket.c on the queues of the channels and the
--   hash table that finds them. A client is named by its node in a queue; the system's part is an answer
--   for each client and message. The messages are the ring of 1024 that
--   demo/src/core/ngx_cycle.c links, one index for each. The walk over a channel has fuel, of which more than
--   the number of clients is enough, as has the loop over the messages, of which more than the number of new
--   messages is enough; a read in freed memory is a result, `freed`. Round is about one client, Clients,
--   Delivery and Complete about a walk, Messages about several, Joining about a new client, and Dropped
--   about all that the handlers can do one after the other.
-- Redis: `ngx_process_parse_message` of demo/src/os/unix/ngx_redis_message.c, by which a worker reads
--   the messages that it sends on. Connection has the fields and the functions of the C library that
--   the parser calls, Parser one function for each state. Nothing in the code bounds the number of
--   digits of a length, so a write behind `number` is a result, `overrun`. `rc->buffer` and the
--   argument `b` are the same buffer, as the caller has it. Bounds is about the other arrays, Message and
--   Complete about what is read.
-- Times: `ngx_gmtime` of demo/src/core/ngx_times.c. `yday`, which may be negative there, is computed in
--   each branch without a negative number. Calendar has the formulas' facts, those on months by a table
--   of all days of a year, and Date the statement about dates.
-- Text: `ngx_sprintf_num` of demo/src/core/ngx_string.c. Its array of 20 bytes bounds the loops, and a
--   number of 64 bits has no more than 20 digits.
-- Text/Format: `ngx_vslprintf` of the same file. The arguments are a list of typed values, and a double is
--   given by what the arithmetic of the code finds in it. A run ends with what was written, or with
--   `past_end`, where the code reads behind the format, or `mistyped`, where an argument has not the
--   type that the format asks for. The fuel is one more than the bytes of the format, which is enough since
--   every round takes one. Rounds and Rooms are about the room that is left, Plain about a format without
--   directives.
-- Pool: demo/src/core/ngx_palloc.c. A block has an address, an end, a next free address and a counter of
--   failures; large allocations are a list of entries, each with its own place in a block. What
--   `memalign` and `malloc` return is an argument. Regions and Valid say which regions lie apart, Walk, Serve and
--   Grants follow one allocation, Balance and Release count what the C library holds for the pool, Runs is about
--   all that a program can do with a pool, and Overrun about a pool whose size is not a multiple of 8.
-- Tests: concrete inputs.
--
-- Not modelled: sockets, epoll, processes, signals, logs and files, which are calls of the system;
-- arrays and lists over the pool, the tree of timers, and the cached texts of the times.
-- The study programs beside demo/ are not part of the server.
pub mod Common
pub mod Connection
pub mod Encoding
pub mod HashTable
pub mod Http
pub mod Pool
pub mod Queue
pub mod Redis
pub mod Sha1
pub mod Tests
pub mod Text
pub mod Times
pub mod Websocket
