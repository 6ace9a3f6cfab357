-- ===== src/Lib.antt =====
-- Unlucky21: the web application of a mining pool that pays the 21 miners with the best shares, and
-- the coinbase outputs that it announces. The reward service (reward-service) keeps rounds, shares and
-- blocks in a database: a gateway tells it shares and blocks over a socket and asks it for coinbase
-- outputs, and a loop confirms blocks and ends their rounds. The web application (web) only reads the
-- database, ranks the miners, and shows ranks, payouts, blocks and statistics on its pages and routes.
--
-- The files, with the code that they are about:
--   Store             the tables (reward-service/internal/db/schema.sql), as a state at one time
--   Leaderboard       the ranking queries' common table expressions (web/lib/db.ts): the recent
--                     shares, the sessions between idle gaps, the join of the two, the rank
--   Payout            the reward constants and `calcPayouts` (web/lib/db.ts)
--   Db.Connection     `getPool`; Db.Board `getLeaderboard`; Db.Miner `getMinerStats`; Db.Stats
--                     `getPoolStats` and `getExtendedPoolStats`; Db.Blocks `getBlocks`, `getBlock` and
--                     `getSoloBlocks` (web/lib/db.ts); Db.Outcome is a promise with its result
--   External          `getExternalStats` (web/lib/external.ts): its two variables, and the calls,
--                     completions and `finally` callbacks as steps
--   Api               the routes of web/app/api, with their statuses
--   Format            web/lib/format.ts
--   Pages             what the pages of web/app show: leaderboard and page.tsx (Ranking), miner
--                     (Miner), stats (Stats), and the tables of blocks (Tables); Pages.Loading a page from its
--                     query to its rows or its answer "not found"; Pages.Site the links between pages
--   Coinbase          `BuildOutputs` (reward-service/internal/coinbase/builder.go)
--   Service           the leaderboard service (reward-service/internal/leaderboard/service.go):
--                     Service.Database the tables with their sequences, the statements and how they
--                     fail; Service.Shares `BufferShare` and `FlushShares`; Service.Ranking
--                     `GetTop21`; Service.Blocks `RecordUnconfirmedBlock`, `ConfirmBlock`,
--                     `GetUnconfirmedBlocks` and `MarkOrphaned`
--   Socket            a connection of the gateway (reward-service/internal/socket/server.go) over any
--                     `Handler`, an interface as a record
--   Pool              `poolHandler` (reward-service/cmd/server/main.go) and `ActiveRoundID`
--                     (reward-service/internal/db/db.go); Pool.Server is its start and its loops as a
--                     step relation
--   Solo              the solo pool's handler (reward-service/internal/solo/handler.go); Solo.Server is
--                     its loops as a step relation
--   Polling           the polling loop that both handlers run
--   Rpc               the calls of Bitcoin's RPC (reward-service/internal/bitcoinrpc/client.go)
--   Gateway           the gateway's client of the socket
--                     (datum-gateway/src/datum_reward_socket.c), Gateway.Response its loop of reads and
--                     its scanner; Gateway.Coinb2 the coinbase it makes of the reply
--                     (`datum_generate_personal_coinb2` of datum-gateway/src/datum_coinbaser.c)
--   Examples          a small pool and the theorems at its data
-- The files below a component's file hold its proofs. Shared by all are Prelude (names, lists over
-- the native numbers, texts as lists of UTF-16 code units), Double (binary64 arithmetic), Js (the
-- parsing and printing of numbers) and Sql (what the queries use of the database: aggregates,
-- RANK, and ORDER BY as an interface whose laws say that it permutes and sorts; Sql.Insertion is one).
--
-- Numbers. A double is a natural number of units of 2^-1074. Rounding is to nearest, ties to even, and
-- overflow to Infinity is not modelled. The payouts are considered below 2^47 satoshis, over a million
-- bitcoins, far above any block's reward. `ulp_from` runs on as much fuel as
-- the numerator, which doubling from 1 cannot use up.
-- Negative differences of doubles are not modelled. Times are microseconds in the tables and
-- milliseconds in a `Date`.
--
-- Parameters, since their code is not in this repository: ORDER BY, the text of a NUMERIC quotient,
-- what the driver and the database make of a number as OFFSET, `new URL`, `decodeURIComponent`,
-- `Math.exp`, and the answers to `fetch`; in the reward service, the casts to NUMERIC(78,0), the
-- confirmations that Bitcoin reports for a hash, what an HTTP exchange comes to and what `json.Unmarshal` makes of
-- it, and for each call which statements fail. After a
-- statement that has failed the rest of its transaction fails. An `int64` amount is a natural number:
-- fees are not negative, and a port is below 2^31. A VARCHAR counts characters: in the reward service
-- the elements of a text are characters. The order of the workers in a batch, that of a Go map, is
-- that of their shares.
--
-- Steps. A call of a handler and a turn of a loop is one step, so goroutines interleave between steps
-- only; the round's number that a call has read does not change under it. A sequence gives the number
-- of a statement that has failed again, where the database skips it.
--
-- The gateway. A char is a byte, and so is a character of a text there; a reply is read to a buffer
-- of 16383. `atoll` gives the nearest int64 where the number is out of range, as GNU's library does.
-- Sums of amounts are modulo 2^64. A share's difficulties as texts (`%.2f`), and the script of an
-- address, which the gateway's own program computes, are parameters. The text that `json.Marshal`
-- gives of a reply is written for addresses without characters that it would escape.
--
-- Not modelled: markup, styles, logging and headers; `toLocaleString` and ISO texts; the static pages
-- and the script of the search form; the JSON of requests, sockets, deadlines, timers, signals and
-- the last flush of the reward service; the rest of the DATUM gateway, which is another project's,
-- the transaction's hexadecimal text among it, and the scripts of infra and scripts.
-- The queries of one call run on one state of the tables. Where a statement relates two queries whose
-- order of peers could be seen in it, each has an ORDER BY of its own.
pub mod Prelude
pub mod Double
pub mod Js
pub mod Format
pub mod Gateway
pub mod Sql
pub mod Store
pub mod Leaderboard
pub mod Payout
pub mod Db
pub mod External
pub mod Api
pub mod Pages
pub mod Coinbase
pub mod Service
pub mod Socket
pub mod Polling
pub mod Pool
pub mod Solo
pub mod Rpc
pub mod Examples
