-- ===== src/Lib.antt =====
-- Models of the core of PizzaSQL, a SQL server over a key-value store, and theorems about them.
--
-- A statement passes from a protocol server (pkg/pgserver, pkg/httpserver) through the lexer
-- (pkg/lexer), the parser (pkg/parser) and the analyzer (pkg/analyzer) to the executor
-- (pkg/executor), which reads and writes rows through the storage layer (pkg/storage) over a remote
-- store. Modelled are the lexer, the names and types of the analyzer, and of the storage layer the
-- transactions, the row codec, the row locks, the hub of LISTEN and NOTIFY and the caches of UNIQUE
-- indexes.
--
-- Lexer: pkg/lexer. Token and Keywords hold token.go. State holds the `Lexer` struct, `New`,
--   `readChar`, `peekChar` and the classes of bytes; Readers and Blob the readers of the tokens
--   of variable length; Operators and Next the switch of `NextToken`, and `Tokenize`. A call
--   returns a `Run`: a result, a panic of a slice expression, or a loop without end. Each loop
--   runs on as much fuel as the input has bytes, and one more: a round reads a byte, and a byte
--   0, which is also what is read behind the input, ends every loop. Moves holds the invariant of
--   the lexer; Total, Progress, Blobs, Switch and Stream follow it through the calls up to
--   `Tokenize`. Names and Quoting are about keywords and string literals. `unicode.IsLetter` is
--   written out for the runes below 256, `hex.DecodeString` for its result; the text of its error
--   is a parameter.
-- Analyzer: pkg/analyzer. Types and Functions hold types.go, Scope and Catalog scope.go, each
--   with its laws: TypeLaws, Aggregates, Names. Letters are ASCII. A chain of scopes is a list,
--   and pointers to columns are the columns. The analysis of statements is not modelled.
-- Storage.Store: pkg/testkv/testkv.go, the store that the sessions of the tests use over the
--   protocol of the remote store, by its operations; Versions is about the numbers that it gives
--   to values.
-- Storage.Session: pkg/storage/tx.go, the fields of the `Session` struct with their operations,
--   in a transaction that stages no schema change; the loop of `rollbackToLocked` is that of
--   foreign_key_cascade.go. Manager is what the sessions of a process share of table.go. Reads
--   holds the reads and the point writes, for tables that no foreign key refers to and rows that
--   keep their keys; Batch and Commit hold `CommitWithLSN`. The encoding of a row, the rules of
--   the schema at a commit and the fate of the request to the store are parameters. Overlay is
--   about snapshots of the log, Keys about the keys of rows, Scans about the rows that a scan
--   returns. Runs are the runs of one transaction, with its savepoints and with the writes of
--   other clients between its steps; Steps, Validation and Isolation follow what it has read,
--   Effects, Publication and Images what its batch does, and Outcome, Interruption and Failures
--   say how it ends. A commit is one step, as the table gates make it for the sessions of one
--   process.
-- Storage.RowCodec: pkg/storage/rowcodec.go. Encode and Decode are the two directions, Slices
--   the slice and index expressions with their panics, Words the little-endian numbers, Names the
--   sort. A string is its bytes, a float its bit pattern, an int an integer in the range of its
--   type. The JSON that rows of an unknown type, and rows of older databases, are stored as comes
--   from a library: `marshal` and `unmarshal` are parameters.
-- Storage.RowLock: pkg/storage/rowlock.go. Entries stand on a heap, since `Release` may hold
--   one that the map has lost. Releases takes `Release` and `ReleaseAll` as a whole; Steps cuts
--   them where the source does, between the load of an entry and its mutex, and lets the steps of
--   all sessions interleave, with Gate, Agreement and Loads about single steps and Reach about
--   what they lead to. Waiting holds `waitFor` and `hasCycleLocked`, whose loop has two rounds
--   more fuel than there are sessions that wait; the sleep of a waiter and its timer are events
--   of the environment. Writes holds `BeginWrite` with the gate as a count of readers, Races the
--   runs that break what the source promises. `active` has no wrap-around at 64 bits.
-- Storage.Hub: pkg/storage/notify.go. Members is about subscriptions, Delivery, Overflow and
--   Order about `Publish`. The operations run one at a time; pointers are not nil; the counters
--   wrap around at 64 bits. What a connection takes from its queue is not modelled.
-- Storage.UniqueCache: pkg/storage/unique_cache.go, the cache of a UNIQUE index with its two
--   maps and the publication of a plan. The validation of the plan is not modelled.
-- Prelude: lists by native numbers, maps as association lists in the order of their range,
--   bytes, signed integers, equality of keys as an interface.
--
-- A map's range has no fixed order in Go: the theorems hold for every order. Not modelled are the
-- parser, the analysis of statements, the executor, the servers, the schema, the tables of the
-- storage layer with the writes outside transactions, and import and export.
mod Prelude
pub mod Storage
pub mod Lexer
pub mod Analyzer
