-- ===== src/Lib.antt =====
-- opennap: a server for the Napster protocol, its core parts modelled and proved correct.
--
-- The server keeps its users, channels and accounts in hash tables (hash.c) and lists (list.c). It reads
-- messages from its connections (handler.c), each a length, a tag and a text, finds the handler of the
-- tag in a table, and calls it. Handlers take the text apart (util.c), look up the sender (serverlib.c),
-- change the state, and send messages of the same form, which wait in chains of blocks until the socket
-- takes them (buffer.c). Timers (timer.c) start what is done from time to time, as reaping old bans
-- (ban.c). Masks with wildcards (glob.c) say whom a ban is on.
--
-- Text:       the bytes of C strings; strcasecmp and isspace; strlower of util.c.
-- Hash:       hash.c. HashTable is HASH, with the buckets as a list of chains; each operation has the
--             name of its function. Hash/Laws has the invariant and the operations on the data of a key,
--             Hash/Refines the table as a list of entries.
-- LinkedList: list.c. A list is the sequence of its pointers; a pointer is a number.
-- Glob:       glob.c. Glob/Spec says what a mask means.
-- Buffer:     buffer.c, the blocks and the chains. The block holds the bytes that were written to it.
--             Buffer/Send has the queues of a connection and what is written to its socket.
-- Timer:      timer.c. The global queue is an argument and a result.
-- Wire:       set_val of util.c and send_cmd, send_cmd_pre and form_message of serverlib.c, with the part
--             of handle_connection (handler.c) that reads a header.
-- Args:       split_line, next_arg and next_arg_noskip of util.c.
-- Password:   get_random_bytes, expand_hex, generate_nonce, check_pass, generate_pass, and the coding in
--             base 64, of util.c. MD5 and rand are arguments; what is asked of MD5 is that its result is
--             sixteen bytes.
-- Protocol:   the table of commands of handler.c and find_handler.
-- Receive:    dispatch_command and the loop over the commands of handle_connection (handler.c). The
--             handlers are an argument: functions on the fields of the connection that the loop reads.
-- Server:     what handlers share: pop_user, pop_user_server, is_server, truncate_reason and the refusals
--             of serverlib.c, invalid_nick of login.c, get_level of userdb.c.
-- Ban:        ban.c, with the removal of bans in Ban/Removal, and check_ban and expire_bans in Ban/Signon.
--             The global list of bans is an argument and a part of the result.
-- Account:    muzzle.c, and level.c in Account/Level. The records of the target, as the two lookups find
--             them, are arguments, and the new records are the result.
-- Channels:   channel.c, join.c, part.c, part_channel.c, kick.c, topic.c, public.c and list_channels.c,
--             with find_channel of util.c and free_channel of serverlib.c. Chats is the store: the table,
--             the channels by address, and the two lists of channels of each user by the address of the
--             user. Part has the messages by which members leave, Join the one that joins, Names the
--             names of channels, Limits the level, the limit and the topic, Bans, Modes, Ops and Voices
--             the messages of operators, Talk what is said and the lists. Links has the invariant of
--             the store, which Leaving, Partings, Creating, Joining, Entering, Changes and Ranks are
--             about, each for some of the messages. Rollover is about the names of rollover channels,
--             Rolling about the loop over them. Quit has free_user.c, client_quit.c and remove_user of
--             remove_connection.c, over a world of the chats, the hotlists, the table of accounts and
--             the numbers of files; Departures and Forgetting are about them. Reach has the steps of
--             the server.
-- Hotlist:    hotlist.c. Hotlists and connections are addresses; the table and the lists of pointers
--             are one store. Hotlist/Closing is about the end of a
--             connection, Hotlist/Acts about all that is done to the hotlists.
-- Ignore:     privmsg.c, with is_ignoring of serverlib.c: private messages and the lists of those whom a
--             user ignores; Ignore/Services has operserv and chanserv, whose calls of dispatch_command
--             are results. Ignore/Lists is about the lists as sets, Ignore/Delivery about who gets a
--             message, Ignore/Commands about the commands of the services.
-- Base:       numbers, lists and tests that all of these share.
-- Tests:      the components on concrete data.
--
-- What a handler sends is a list of calls in their order, with the format of the source and its
-- arguments. Allocation that may fail is an argument: a Boolean, or a function from the number of the
-- allocation. Numbers that the source keeps in two bytes or one are written with their remainders.
--
-- Fuel stands for a loop in seven places. command_loop has one round for each byte and one more, and
-- every command takes at least four bytes. queue_loop has one round for each byte and one more: a
-- round copies at least one byte, also where it starts a new block. find_loop has one round more than
-- the table has rows, and each round makes the range smaller. exec_timers takes its fuel as an
-- argument; more than the number of timers is enough where each interval ends after the present.
-- mode_loop and nicks have one round for each byte of the packet and one more, and each word has a byte.
-- join_loop takes its fuel as an argument: one round for each name that is tried.
--
-- Not modelled: the sockets and the configuration (network.c, main.c, config.c, init.c), the programs
-- beside the server (setup.c, mkpass.c, metaserver.c, spyserv.c, patchnap.c), MD5 (md5.c) and getopt.c,
-- which are copies of other projects; the compression of the links between servers, which is an
-- argument; the saving and loading of bans and of channels; what log writes; the handlers of logins,
-- searches, transfers and links of servers.
pub mod Base
pub mod Text
pub mod Hash
pub mod LinkedList
pub mod Glob
pub mod Wire
pub mod Args
pub mod Password
pub mod Protocol
pub mod Receive
pub mod Buffer
pub mod Channels
pub mod Timer
pub mod Server
pub mod Ban
pub mod Account
pub mod Hotlist
pub mod Ignore
pub mod Tests
