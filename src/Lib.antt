-- ===== src/Lib.antt =====
-- finokit: infrastructure for Go services.
--
-- The repository's packages are independent of each other, but for config, which the others read their
-- settings from. Each file or folder here models a package, by the names of its functions:
--
-- Pagination: pagination/. Cursor is cursor.go (the codec of page tokens), Page is page.go and
--   paginator.go. AES-GCM, Base64, JSON, SHA-256 and the random source are parameters (Services), with
--   the laws that opening undoes sealing and decoding undoes encoding.
-- Errorx: errorx/. Chain, Options and Coded are definition.go, error.go and option.go: an error is a
--   value with its chain of causes, and the stack is a parameter. Generator is generator/generator.go:
--   the validation of specifications, the codes and the definitions that are written; its Markdown is
--   the document, Output is Generate over a record for the file system, and Arguments is ParseArgs with
--   the flags of package flag, and Run. Output.Orders is on the order of the inputs.
-- Messaging: messaging/. SubMessage is sub_message.go with the callback that `Subscribe` in nats.go
--   makes; its `done` changes by compare-and-swap, so calls from several goroutines are a list of calls.
--   Client is client.go over a Queue, a record of operations and of what they promise. Nats is nats.go
--   over a Server, a record for the package nats.go with its documented behaviour; Nats.Queue.Accepts
--   makes it a Queue. Nats.Pull is the goroutine of a pull subscription, as the sequence of its rounds,
--   Values is context.go, Endpoint subscriber.go, Start `New` of config.go, and Tracing tracing.go, where
--   a span is what OpenTelemetry is told of it.
-- Config: config/. Loader is loader/memory/memory.go: Memory holds its state and the methods that load,
--   Memory.Access those that read, Watchers a watcher with its channel of one update. A method is one
--   function for each part that runs under the lock, and Memory.Steps is the relation of those parts in
--   any order, `load_one` and `reload` being those of `Load`; where a method joins parts, what others do in
--   between is an argument, or it runs alone. In Watchers the test of `update` and its send are two parts.
--   Memory.Watching is the goroutine that watches a source, and Memory.Undone compares what `Sync` and a
--   change of a source install. Default is default.go, whose
--   loader is an interface: what its calls return is an argument. Default.Running is its goroutine `run`
--   with what others do in between, Default.Newest and Default.Follows what it leaves,
--   Default.Starting `newConfig` over Loader, and Default.Watching the watcher of `Watch` over that of
--   Loader. Exit is `Close` of both, as two steps that other calls may come between. Value is value.go.
--   Manager is config.go, the configuration that the package keeps, over the record Manages of what it
--   calls on it, with `WatchFunc` and provider.go in Manager.Watching; Files is config_helper.go, where a
--   directory is a tree of its entries. Source is source/: Memory with its watchers, Env (env.go and
--   flag.go, whose variables make nested maps), File with File.Watching over a record for fsnotify, Nats,
--   whose watcher is a list of moves of its goroutine and its callers, and Options. Reader is reader/
--   over records for the codecs and simplejson, with Encodings and Json, and Tag is tag/tag.go.
-- Addr: addr/addr.go, an address being its bytes. Db: db/ over a record for gorm, Db.Connect being
--   db.go. Logs: logs/trace_logger.go, and Logs.Default logs.go and service.go over a record for the core
--   module. Redis: redis/config.go, Redis.Connect redis.go, and Redis.Service the service over a client.
-- Storage: storage/. Requests is options.go, Client is client.go over Minio, a record of the calls of the
--   minio client on a server's state, Pages its listing, and Http the response of object.go.
-- Base: the shared types. A string is a list of code points, a Go map an association list, an error
--   result a Result, a nil pointer or interface none, and integers are the native numbers with signs.
--
-- Bounds. The printing of a decimal number runs on fuel, which has one more unit than the number and so
-- always ends; following the pages of a listing is given a number of calls that is shown to be enough;
-- the other loops are recursion on lists. Versions of snapshots are times of 63 bits, as ParseInt reads
-- them; the full error codes are shown to fit in 32 bits; the limit of a read is raised by one only below
-- the largest int64. Sizes and durations are integers without a bound where the modelled code only
-- compares them.
--
-- Not modelled: the encoders of config/, which are each one call of a library, its secrets, which are
-- commented out, and generated mocks; the propagation of traces in the headers of messages, which only
-- calls OpenTelemetry; what is written to logs and printed as the usage of a command; and how long
-- goroutines sleep before they try again.
pub mod Addr
pub mod Base
pub mod Config
pub mod Db
pub mod Errorx
pub mod Logs
pub mod Messaging
pub mod Pagination
pub mod Redis
pub mod Storage
