-- ===== src/Lib.antt =====
-- A verification library for api-ratelimiter, a rate limiter behind the auth_request of nginx or
-- Angie, written in Go.
--
-- A request reaches the limiter with an API key, an address, both or neither. A key that has a
-- limit of its own in Redis is counted in the map of known keys, every other client in the map of
-- unknown clients under a global limit. Both maps count in fixed windows of a second or a minute
-- and live in memory alone. A cleanup cycle drops idle counters and writes abusive clients to
-- Redis. When Redis fails the limiter goes on with the global limit.
--
-- Which file models which part (paths from the repository's root):
--   Clock: package time as internal/counter uses it. An instant has a wall clock in nanoseconds
--     since 1970 and, perhaps, a monotonic reading; Sub prefers the monotonic readings and
--     saturates.
--   Counter, Counter.Known, Counter.Unknown, Counter.Inactive: internal/counter/known.go and
--     internal/counter/unknown.go. `record_request` is RecordRequest, `delete_if_inactive` is
--     DeleteIfInactive, `is_inactive` is isInactive, and so on. Counter.Window has the interface
--     of a fixed-window map, which both maps fill. Counter.Unknown.View is the abstract view of the
--     unknown map that forgets the order of its entries, Counter.Unknown.Sweeps has the histories
--     in which DeleteIfInactive calls stand among the requests.
--   Limiter: internal/limiter/limiter.go; `decide` is Decide. Its store is the interface
--     LimitLookup.
--   Redis, Store, Store.Scans, Strconv: internal/store/redis.go. `Redis` is the parameter that
--     stands for go-redis and the server; Strconv has what the program uses of packages strconv
--     and strings.
--   Metrics, Metrics.Registry: internal/metrics/metrics.go. Metrics holds the sums and last values
--     of the instruments; Metrics.Registry has their names, types, labels and buckets as New makes them
--     and registers them, over the Prometheus registry as a parameter.
--   Cleanup, Cleanup.Loop, Cleanup.Traffic, Cleanup.Steps: internal/cleanup/cleanup.go; `run` is
--     Run, `loop` is Loop. The store is the interface CleanupStore, and what requests do to the maps
--     during a cycle is the argument Noise; in Cleanup.Traffic it is made of requests. `step` of
--     Cleanup.Steps is one call of a map or of Redis out of a cycle. Run has no panic of its own, so
--     the calls of Run that Loop makes are an argument, with a panic as an outcome.
--   Handler: internal/handler/check.go; `serve_http` is ServeHTTP, `extract_key` is extractKey,
--     `extract_ip` is extractIP. Its limiter is the interface Decider, in which a panic is `none`.
--   App, App.Shutdown, App.Listen, App.Logging: cmd/api-ratelimiter/main.go. `App` holds the objects
--     that `run` builds and shares, `check`, `clean`, `readyz` and `update_redis_gauges` act on it;
--     `Step` is what may happen from the start of the servers to the end of the process. `listen`
--     has the calls of the operating system as the interface Os, `new_logger` is newLogger.
--     App.Steps has the history of the program as requests to /check and single steps of the cleanup
--     in any order, and what it asks of the unknown map.
--   Url, Ip: what the program uses of net/url and net: Parse, Query, Encode and ParseIP of Go
--     1.21.
--   Config, Config.Flags: internal/config/config.go; `validate` is Validate, `bind_flags` is
--     BindFlags over Pflag, the interface of package pflag.
--   Admin.Index, Admin.Status, Admin.Samples, Admin.Top, Admin.Paging, Admin.Pages, Admin.Links,
--     Admin.Actions: internal/admin/admin.go. `handle_index` is handleIndex, `flag_rows` has the
--     rows that it makes of the configuration, `top_known` is topKnown, `topsort_url` is topsortURL,
--     `handle_limits` is handleLimits, `handle_action` stands for the six handlers that change the
--     store. Admin.Sort stands for sort.Slice.
--   Base: what these share: tests on numbers, integers and int64, texts as lists of bytes, Go
--     maps as association lists. Tests: the theorems at concrete inputs.
--
-- How it is modelled. An int64 is an integer with the wrap-around written out: `+64` and `*64` are
-- the Go sum and product. A map is an association list whose order stands for one order of
-- iteration; no theorem depends on it. A method that changes an object returns the new object; one
-- that reads the clock takes the instant as an argument; every method of a map holds its lock from
-- its first read to its last write, so it is one step. An error is `none`, `false` or a
-- constructor. The loops are over lists, but for three. The server decides how many rounds the
-- scans of Store.Scans take, so they run on fuel, and the fuel is enough when it is at least the
-- number of rounds. ParseIP reads at most the eight fields of an IPv6 address and Itoa writes at
-- most the nineteen digits of an int64, which are the rounds given to them. The goroutines interleave
-- in App.Steps by calls of the maps and of Redis; there a request to /check is one step, its
-- lookup in Redis included, and so are the gauges at the end of a cycle.
--
-- Not modelled: the templates and the format of times of internal/admin, the order of the patterns
-- in http.ServeMux, the servers of net/http and their failures in cmd/api-ratelimiter, the usage
-- texts of the flags, log lines other than those of the store's health. They are presentation, or
-- calls of the operating system and of third-party packages.
pub mod Admin
pub mod App
pub mod Base
pub mod Cleanup
pub mod Clock
pub mod Config
pub mod Counter
pub mod Handler
pub mod Ip
pub mod Limiter
pub mod Metrics
pub mod Redis
pub mod Store
pub mod Strconv
pub mod Tests
pub mod Url
