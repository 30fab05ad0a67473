-- ===== src/Lib.antt =====
-- kratos-layout-monolith: a user service in Go on kratos, with a cache-aside layer over Redis and
-- gorm. This library models its core and proves what makes it correct.
--
-- The parts and how they interact. A request passes the middlewares of internal/middleware in the
-- order that internal/server/http.go gives them. The service (internal/model/user/service) turns
-- it into calls of the use cases (internal/model/user/biz), these call the repository
-- (internal/model/user/data), and that reads and writes through the cached database
-- (internal/pkg/cache/cached_db.go), which keeps rows in Redis (internal/pkg/cache/cache.go).
--
-- - Prelude, Errors: shared names, integers and words; Go's error values and errors.Is.
-- - External: what the code calls and does not contain, as records of functions: float64, go-redis,
--   the circuit breaker, singleflight, math/rand, encoding/json, gorm, net/mail and unicode. What
--   theorems rely on is in NetLaws (Cache/Coherence), Outage (Cache/Delay/Healing), JsonLaws
--   (Cache/Take/Spec), TableLaws (User/Table), LockLaws (User/Usecase/Locking, where a lock is not
--   timed out), JwtLaws (Middleware/Token/Trip), FloatLaws (Middleware/Limiter/Bounds) and SortLaws
--   (Cache/Metrics/TopKeys).
-- - Cache/State, Cache/Commands: the fields of the Redis struct with all that its methods change;
--   accept, markRedisResult, aroundDuration, cacheGet, cacheSet, cacheSetNotFound, cacheDel.
-- - Cache/Take: Take, Set and Del. The closure that singleflight runs is run_query with store_row,
--   what follows it is finish_row. A call either leads or follows another call.
-- - Cache/CachedDb: QueryRow, QueryRowIndex, cacheTakeWithIndex, Exec, DelCache, SetCache.
--   Cache/Paging: FindCount, FindSum, FindAll and the pages. Cache/Delay: the goroutine of AsyncDel,
--   and how it mends a deletion that failed.
-- - Cache/Metrics: LocalMetrics, PerKeyMetrics with TopKeys, and the collectors as one data type;
--   Cache/Metrics/Unordered: readings on calls without their order, a quotient.
-- - User/Model, User/Keys: rows, users, conversions and cache keys. User/Repo: the repository.
--   User/Usecase: UserUsecase over the interfaces UserRepo and Locker. User/Service: UserService.
--   User/Validation: the Validate methods of api/user/v1/user.pb.validate.go, with the host names,
--   patterns and addresses of RegisterRequest in the modules below it. User/Usecase/Registration and
--   User/Usecase/Locking: Register as a whole. User/Race: several calls of Register at once as a
--   step relation on threads (User/Race/Unique), over what a repository promises to Register
--   (User/Race/Registry) and what this one does (User/Race/Store).
-- - User/Repo/Image: what the cache must hold for a table. User/Repo/IndexQueries, Consistent,
--   ConsistentWrites, ConsistentUpdates and ConsistentCreates: the repository's operations against it.
--   User/Repo/Plain: writes and the texts of the table. User/Repo/Histories: sequences of calls as a
--   step relation.
-- - Middleware: tokens, the limiter, the middlewares as functions on handlers, and the health
--   handler of internal/server/http.go.
-- - Lock: the lock of internal/pkg/lock/redis.go over redsync (RedsyncLaws), which keeps LockLaws.
-- - Logger: JSONLogger.Log of internal/pkg/logger/logger.go, where a map is a function.
-- - Startup: main and initApp of cmd/app with the constructors that they call, as a log of what the
--   program does; the answers of the outside are functions of that log, so any behaviour of the
--   libraries is covered. Startup/Ends: what each ending of main leaves open.
-- - Tests: a world to run the code in, with a table whose texts compare without regard to case
--   (Tests/Collation), and the theorems at concrete inputs.
--
-- State is passed explicitly, and each function returns the state after it. The variable that a Go
-- pointer names is passed and returned. int32 and int64 results are wrapped where the code
-- computes them; counters are the bit patterns of int64. Recursion is structural; the rounds of a
-- retry are counted by their number; only the digits of a number run on fuel, n rounds for n. A
-- goroutine of AsyncDel is a job in the state, and is run on its own. Concurrent lookups are seen
-- through singleflight's result alone; concurrent registrations interleave at the lock, the lookup,
-- the creation and the release.
--
-- Not modelled: what is logged, spans, the Prometheus collectors' values, the scheduler,
-- transactions (Trans), and the other generated code under api. TableLaws states First for any
-- variable; gorm makes the primary key of one that is not fresh a further condition, but every lookup
-- of the repository passes a fresh one, and no entry that is right fills it in part.
--
-- Texts. The migration gives the columns of users a collation under which texts that differ in case
-- are equal, while cache keys and locks tell them apart. TableLaws therefore states the lookups by a
-- username or an address for plain texts alone, those that the collation tells apart wherever they
-- differ (`is_plain`). Lookups by an id, updates and deletions compare no texts. A blank
-- name, such as UpdateUser of the service leaves, has no cache key (model_cache_keys), and no entry in User/Repo/Image.
pub mod Prelude
pub mod Errors
pub mod External
pub mod Cache
pub mod User
pub mod Lock
pub mod Middleware
pub mod Logger
pub mod Startup
mod Tests
