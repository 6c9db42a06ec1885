-- ===== src/Lib.antt =====
-- AIS-Server (ais_server/): the server receives AIS sentences from many receivers over TCP, drops
-- duplicates, puts the rest into the order of time and sends them to the configured endpoints. This
-- library models its components and proves what makes each of them correct.
--
-- How the parts interact. A thread per connection (Ingest) reads lines, keeps the registry of nodes up
-- to date and calls the pipeline (Pipeline) for each valid sentence. The pipeline asks the duplicate
-- detector (Dedup), pushes new sentences to the reorder buffer (Reorder) and publishes them on the
-- event bus (Events). Its output loop takes what the buffer releases and dispatches it to the workers
-- of the forwarder (Forwarder), which a loop keeps aligned with the table of endpoints (Db).
--
-- Which file models what. A function of the source has the function of the same name; `self` is the
-- first argument and the result, and what a call returns is the second result.
--   Prelude: tests on numbers, lists, text, Python's dict and int.
--   Nmea (ais_server/nmea.py): validate_checksum, canonicalise, parse. Nmea/Payload: _bits,
--     extract_mmsi_and_type, extract_timestamp. Nmea/Calendar: datetime. The other files of Nmea prove.
--   Reorder (ais_server/reorder.py): ReorderBuffer. Order: its invariant. Pushed and
--     Release: one call. Stream and Passed: any sequence of calls.
--   Dedup (ais_server/dedup.py): Deduper. Cache: the package cachetools as a record of operations
--     and laws. Sample: a cache with these laws. Inherit: sequences of calls.
--   Ingest (ais_server/ingest.py): Registry with NodeRegistry as a store of objects and a dictionary
--     of places in it; Registry/Housekeeping with prune_inactive and snapshot; TagBlock, Framing and
--     Handler with _ConnectionHandler; Listener with TcpIngest.
--   Events (ais_server/events.py): EventBus.
--   Forwarder (ais_server/forwarder.py): Worker with the queue and the counters of _EndpointWorker;
--     Tcp, Udp and Http with its loops; Manager with ForwarderManager; Manager/Stuck with the loop
--     of ais_server/__main__.py that calls sync; Probe with test_endpoint.
--   Pipeline (ais_server/pipeline.py): Pipeline. Stream and Chronology: whole runs. Rates: the figures
--     of the dashboard.
--   Netcheck (ais_server/netcheck.py): the cycle of the check. Gateway: _default_gateway.
--   Diskcheck (ais_server/diskcheck.py): the cycle of the watchdog. Snapshot: what it
--     collects, and its run. Watched: what it logs.
--   Config (ais_server/config.py): _deep_merge. AtomicWrite: _atomic_write_text. Secret and Load:
--     _ensure_secret_key, DEFAULTS and load_config. Persist: two starts one after the other.
--   Supervisor (ais_server/supervisor.py): the loop of SupervisedThread.
--   Maintenance (ais_server/__main__.py): the schedule of _maintenance_loop.
--   Server (ais_server/__main__.py): the ingest, the pipeline and the forwarder as main connects them.
--   Db (ais_server/db.py): the tables and the methods on them. Endpoints/Sound: the invariant of the
--     table of endpoints. Endpoints/Wanted: which rows a sync sees.
--   Wifi (ais_server/wifi.py): the calls of nmcli. Ethernet: the status of the wired link.
--   Web (ais_server/web/api.py): change_password, _prune_backups and the recent sentences. Endpoints:
--     the requests on endpoints, with Answer, and Endpoints/Requests any sequence of them. System:
--     Wi-Fi, backups and counts. Auth (ais_server/web/auth.py, views.py and app.py): login and pages.
--   Cli (ais_server/cli.py): how aisctl finds the server, logs in and reads answers. Server: the two
--     ends together.
--   The Tests of each part run the definitions on concrete data.
--
-- Conventions. Times are whole milliseconds and subtraction of times is moved to the other side of a
-- comparison. Calls of the clock, answers of sockets and failures are arguments. Locks make a method
-- one step, except in the loop of the TCP worker, where calls of other threads may come between any
-- two steps. A call of `put` is one step there: the output loop is its only caller, and that the
-- worker puts a sentence back between the parts of a `put` is left out. Every loop is structural
-- recursion on a list of what happens, so there is no fuel, but for printing a number, whose fuel is
-- more than the number and is enough. A heap is the sorted list of its items. A text is the list
-- of its code points, and the tests on characters are those of ASCII, which is what the ingest decodes.
-- A session runs as if no other one changed the registry meanwhile.
--
-- Not modelled: sockets, files, subprocesses, SQLite itself, reading YAML, floating-point figures of
-- the host, the start of the threads, Flask's own work and the printing of tables, which pass values
-- between packages and the operating system. The operations that the code uses of `cachetools`,
-- `bcrypt`, SHA-1, Flask-Login, SQLite's column types, nmcli and the network are parameters. What is
-- written to the disk is modelled by the contents of files, without modes and without what fsync
-- forces.
pub mod Prelude
pub mod Events
pub mod Forwarder
pub mod Nmea
pub mod Reorder
pub mod Server
pub mod Ingest
pub mod Dedup
pub mod Pipeline
pub mod Supervisor
pub mod Config
pub mod Maintenance
pub mod Db
pub mod Web
pub mod Netcheck
pub mod Diskcheck
pub mod Wifi
pub mod Cli
