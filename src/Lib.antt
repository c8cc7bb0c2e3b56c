-- ===== src/Lib.antt =====
-- A collection of small server programs under projects/, each with a core that stands apart from
-- its HTTP and database code. The parts modelled here do not call each other; each has a module.
--
-- Common: the numbers, lists, byte strings, association lists and sorting that the parts share.
-- Text is a list of byte values. A map of Go is an association list without duplicate keys.
--
-- KvStore: projects/08-basic-key-value-store/store. wal.go is KvStore/Wal (Append, Replay,
-- Truncate), memtable.go is KvStore/Memtable, sstable.go is KvStore/Sst (writing, scanning, looking
-- up and merging of table files) and KvStore/Names (file names), engine.go is KvStore/Engine (Set,
-- Delete, Get, the flush, the compaction, Close) and KvStore/Engine/Open (Open, recovery, replay).
-- Log and table files share one record layout, KvStore/Frame, over the checksum of KvStore/Crc. The
-- files are lists of bytes by name; what the operating system answers is an argument of each
-- operation (Outcome of a write to the log, Rewrite of a truncation, Written for a table, the files
-- that could not be removed). The loops over a file run on fuel, the length of the file and one
-- more: each turn takes 13 bytes at least, and replay_total shows that it is enough. Operations of
-- the engine run one at a time in KvStore/Engine; KvStore/Engine/Concurrent cuts the flush into the
-- steps between which clients run; KvStore/Engine/Recovery opens the engine again after a crash
-- behind writes that start no flush. Not
-- modelled: the closing of files, the timer, log lines, and
-- file names in other directories.
--
-- HashRing: projects/05-consistent-hashing/ring/ring.go. AddNode, RemoveNode, Lookup and LookupN as
-- steps on the ring; the binary search of sort.Search is written out, on as much fuel as there are
-- points, since each turn halves the interval. hash_position and key_hash, the first four bytes of
-- a sha256, are arguments, and no theorem asks anything of them. Equal positions keep the order in
-- which they were added, where sort.Slice may choose. Not modelled: the statistics in floating point
-- and SimulateKeys.
--
-- Gateway: projects/07-api-gateway/gateway/gateway.go. Router.Reload and Match are reload and
-- match_route on the list of routes, Evaluate is evaluate, with a stage for the key, the scope and
-- the quota. The key store and the rate limiter are arguments: a function from a token to a key, and
-- a step on a state that the limiter keeps; an error is none. The decisions handed to the log are a
-- list. Gateway/Quota is the limiter of store/redis.go, on sorted sets with a time to live: the
-- conversion of a time to a score is an argument, and the process and the server have the same clock.
-- Gateway/Keys has the statements of store/pg.go on the table of keys, with the digest as an argument,
-- and createKey, getKey and revokeKey of api/handler.go; Gateway/Proxy has its proxy up to what is
-- handed to the upstream, where what httputil.ReverseProxy makes of the headers behind the Director is
-- an argument. Not modelled: the latency in a decision, the table of routes, the listings, and what the
-- upstream answers.
--
-- LocalCache: projects/09-caching-system/cache/cache.go. Set, Get, Delete, Peek, Keys, Flush, the
-- sweep and GetOrLoad as steps on the map, the LRU list and the counters; the reading of the clock is
-- an argument. The loop of Set that makes room runs on the number of items and one more: each turn
-- takes an item away. The LFU heap is its root, the least item. Not modelled: the listener, the hit
-- rate, and the coalescing of concurrent loads.
-- LocalCache/Aof is the append-only file of store/aof.go, whose lines are read as records: what
-- encoding/json makes of a line is not modelled.
--
-- Balancer: projects/06-load-balancer/balancer/balancer.go. A pool is its backends, its algorithm and
-- its counter; Pool.Next is next, with one function for each algorithm, and AddBackend, SetAlgorithm
-- and Next of the load balancer work on the pools by service. The comparison of two scores, which are
-- in floating point, and the validation of an address are arguments. Weights are not negative.
-- Balancer/Urls has the deny-list and Validate of urlutil/urlutil.go and the two dialers, with parsing
-- and resolving as arguments. Balancer/Proxy has proxy of api/handler.go, one request at a time: what
-- a backend answers is an argument, every address of a backend parses, and what the client sees is the
-- first status and all bodies that are written, the answers declaring no length, none breaking off and
-- none preceded by an informational one (1xx).
-- Balancer/Admin has requireToken, addBackend,
-- removeBackend and setAlgorithm on the pools and the rows of store/store.go, and reloadBackends of
-- main.go. Not modelled: the loop of the probes, health events and their history, the smoothed latency
-- and the statistics.
--
-- IdGenerator: projects/04-unique-id-generator/generator/generator.go. Next and Batch are next and
-- batch on the state of a generator; the clock is the list of the readings that nowMs gives, and a
-- call that still waits at its end is none. Signed 64-bit numbers are words modulo 2 ^ 64.
-- IdGenerator/Lease has the statements of lease/lease.go on the table of leases: acquire with its
-- cleanup, renew and release, where the row of a worker id is the one at its position and NOW() is an
-- argument; IdGenerator/Lease/Exclusive runs them for a fleet of processes. Not modelled: the
-- connection, the ticker, the table of clock incidents, the region and the text of the holder.
--
-- MessageQueue: projects/13-message-queue. MessageQueue has the statements of store/db.go on the
-- table of messages, read as SQL says, and the round of worker/worker.go; MessageQueue/Partition is
-- PartitionFor of queue/queue.go; MessageQueue/Handler has the requests of api/handler.go that change
-- something, over the table and the counters of store/cache.go, with which services answer as an
-- argument. The rows that other transactions lock, the offsets and the new ids are arguments. Not
-- modelled: the requests that list, and the decoding of JSON.
--
-- RateLimiter: projects/01-rate-limiter/internal. The sliding window of algorithm/sliding_window.go and
-- the cache of policies of policy/policy.go, whose Get is cut into its parts. Not modelled: the token
-- bucket, which is in floating point, the Redis scripts and the table of policies.
--
-- Notifier: projects/10-notification-system/worker/dispatcher.go. Enqueue, the receive of a worker,
-- dispatch, the function that time.AfterFunc runs and the drain of the dead-letter queue are steps on
-- a Dispatcher, with the capacities of the channels; what a provider answers is an argument. The
-- store always answers. Not modelled: templates, metrics, the requests.
--
-- Crawler: projects/12-web-crawler. Crawler/Robots is ParseRobotsTxt and IsAllowed; Crawler is
-- IsPublicHost, getRobots and processEntry. What net, net/url, crypto/sha256, golang.org/x/net/html and
-- the servers answer is the record Net, an argument; the client follows redirects as CheckRedirectSSRF
-- says, each of which is a request. The rules that the cache keeps do not expire, and
-- the cache and the database answer. Not modelled: the claiming of URLs, the dialer, the requests.
--
-- Pastebin: projects/03-pastebin. Create, Get, Delete and the sweep of paste/paste.go on the three
-- stores of store/, each of which answers or fails in a call (Health). A deletion that Get starts in a
-- goroutine waits in a list until it runs. Times are seconds. Not modelled: the making of an id, the
-- limit of requests, the requests.
--
-- Shortener: projects/02-url-shortener/internal. CreateLink of api/service.go with its loop over eight
-- codes, Redirect of api/handler.go, the links and codes of link/, the statements of store/postgres.go
-- and the cache of store/mem_cache.go as steps on one state. The codes of the generator, the answers of
-- the statements and url.ParseRequestURI are arguments; a call reads the clock once. Shortener/Handler
-- has the requests that create a link and that show its statistics. Not modelled: the latest clicks in
-- the statistics, the JSON of the requests, and the goroutine that takes old entries out of the cache,
-- which GetURL does not give anyway.
--
-- Typeahead: projects/11-typeahead-autocomplete-system. NormalizePrefix and GeneratePrefixes of
-- autocomplete/autocomplete.go on lists of code points, and Typeahead/Store with the operations of
-- store/store.go on the table of items and the index. Redis is the interface Typeahead/Redis, whose
-- laws are its documentation, with a server in memory (Typeahead/Memory) that meets them; package
-- unicode, LIKE and lower of PostgreSQL and the scores in floating point are arguments. PostgreSQL, and
-- Redis, answer during a whole call or not at all. The batches of a rebuild run on the number of items
-- and one more. Not modelled: the statistics kept in Redis, the log of queries, the requests.
pub mod Common
pub mod Balancer
pub mod Crawler
pub mod Gateway
pub mod HashRing
pub mod IdGenerator
pub mod KvStore
pub mod LocalCache
pub mod MessageQueue
pub mod Notifier
pub mod Pastebin
pub mod RateLimiter
pub mod Shortener
pub mod Typeahead
