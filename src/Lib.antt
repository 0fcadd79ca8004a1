-- ===== src/Lib.antt =====
-- pegasus_suite: a suite that follows live race data, decides on bets and places them with two
-- bookmakers, Betmatic and Betfair. An operator starts and stops processes through a kernel; a process
-- runs a strategy on the updates of a feed; its bets go out through an engine that holds the sessions.
--
-- The files, by the part of the program that they model (paths from the repository's root):
--   Kernel/ models kernel/: Host is what an application, a process and JSON decoding are to the kernel
--     (types.go), State its record, Lifecycle kernel.go, Processes process.go, Settings settings.go.
--     Every exported call takes the kernel's lock, so each is a function from kernel to kernel and error;
--     Runs puts them into sequences. The proofs are in Steps, Invariant, Rebuild, Control, Saving and
--     Documents.
--   Clients models clients/ (the Store interface, as a record of operations that the kernel takes as a
--     parameter) and Clients/Mem clients/mem/mem.go, the store in memory that fills it.
--   Engine/Side, Engine/Stake and Engine/Ticks model engine/stake.go and the sides and stakes of
--     engine/engine.go and engine/types.go; Engine/Sessions models engine/account.go and the sessions of
--     engine/engine.go; Engine/Place models engine/place.go, from an order to the request sent.
--   Pegasus/ models apps/pegasus/, by directory: Core, Scope and Venues core/; Settings settings/; Packet
--     and Tpd tpd/ (Tpd itself the sharecodes, Tracker update.go, RaceList gmax.go, Courses courses.go);
--     TripleS triples/ (Reconnect the loop of client.go); Strategy strategy/ (ForwardProgress and
--     TpdLeader, whose Select becomes select and the parts it calls; Once what both have in common);
--     Dispatch dispatch/; Process process/; App app.go (Processes and FanOut its later sections).
--     A feed's message goes from the tracker or the topic to App/FanOut, into the inbox of each Process
--     that wants it, through the strategy, and as bets through Dispatch to Engine/Place. The run goroutines
--     of a process are a step relation (Process/Steps): calls, messages and the returns of cancelled
--     goroutines in any order, the handling of one message being one step.
--   Betting holds the types of betting/ that these parts read; Betting/Races and Betting/Polling model
--     betting/betfair/races.go, the polling loops as a step relation; Betting/Refresh events.go, markets.go
--     and util.go, a refresh of what Races holds.
--   Kernel/Api models kernel/api/: the checks on a request (util.go, server.go), Handlers, Routes the two
--     tables with their guards, Logs the query of handleLogs. Platform/Claims and Platform/Verifier model
--     platform/auth/. A request passes its guard and its checks, and then is one call on the kernel.
--   Clients/Doc models clients/doc/doc.go over the Bucket interface of platform/store/store.go, the second
--     store that fills the interface of Clients; Keys, Laws, Listing and Recorded hold its proofs, which
--     ask of a bucket no more than the documents of plain names. Objects models platform/store/s3.go.
--   Pegasus/Tpd/Datagram models tpd/client.go: the packets of a datagram, and the watch over the feed.
--   Logger/Ring models logger/ring.go, Logger/Line and Logger/Emit record.go, types.go and the routing of
--     logger.go; Logger/Telegram models logger/telegram/telegram.go, its Format format.go.
--   Davo models parts of apps/_davo/, a directory that the Go tool skips: Gate engine/gate.go, Names util/.
--   Prelude holds what the parts share: Boolean tests, lists over native numbers, integers, maps as
--     association lists, and the parameters that stand for float64 (Float) and for package time (Time).
--
-- How the code is read. A method on a mutable struct is a function from the state to the new state and
-- its results; errors are values, and a panic is none. int is an integer without bounds: no value here
-- comes near 2^63. A float64 is a value of a parameter with the operations that the code calls and no
-- laws; the price ladder, which the code computes in whole cents, is on integers. A map is an association
-- list, and a range over a map runs in the list's order. The loops are structural recursion: there is no
-- fuel. Clients of bookmakers, logins, applications, JSON, string case and clocks are parameters.
--
-- Not modelled: log lines; the sockets, subscriptions, HTTP calls and JSON of the feeds and the bookmaker
-- clients; the tickers and waits that start a refresh, a sweep or a poll; goroutines that share
-- state without a lock, which are taken one handler at a time; betfairToBetmatic, whose result depends
-- on the order of a map range; the pacing of Telegram messages; the file backend of the document store; the
-- clients, the ranking and the processes of apps/_davo/; and the main program.
pub mod Prelude
pub mod Betting
pub mod Engine
pub mod Clients
pub mod Kernel
pub mod Pegasus
pub mod Platform
pub mod Logger
pub mod Davo
