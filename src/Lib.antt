-- ===== src/Lib.antt =====
-- lukscrypt: a web service that creates, unlocks, locks, grows and deletes LUKS-encrypted vault
-- images. This library models its Go code as functions and proves what they do.
--
-- The parts of the program and their files:
--   * internal/vault (vault.go, keys.go, luksdump.go, resize.go, diskspace_linux.go,
--     diskusage_linux.go) runs cryptsetup, mount, dd and their like. Vault/Mounts reads
--     /proc/mounts (mountedIn, StatusIn, IsUnlocked), Vault/Access unlocks, locks, mounts and
--     deletes (unlockWith, LockContext, Mount, Delete, LockAllUnlocked), Vault/Create is the creation
--     pipeline (Create, with allocateFile and createFile in Vault/Create/Allocate), Vault/Header
--     parses luksDump's output (DumpDetails), Vault/Keys manages keyslots (AddKey, AddKeyFile,
--     KillSlot, ValidateKillSlot), Vault/Resize grows a vault (Grow, appendFile), and Vault/Disk
--     computes sizes.
--   * internal/db (db.go) keeps the vaults and the API tokens in SQLite: Db, with its tables as lists,
--     Db/Listing, with the order of ListVaults and ListAPITokens, and Db/Open, with Open and
--     migrate.
--   * internal/api (api.go) is the HTTP layer. Api/Sessions has the login sessions, Api/Limiter the
--     rate limits, Api/ClientIp the address that they go by, Api/Auth the authentication middleware,
--     login and the CSRF guard, Api/AutoLock the auto-lock sweep, Api/Input the checks of
--     request fields, and Api/Reserve the reservations of createVault and importVault. Api/Reply has
--     what the handlers reply (toResponse, lookupVault), Api/Operate unlocks, locks, mounts and deletes
--     (unlockVault, lockVault, mountVault, deleteVault, vaultDetails, listVaults), Api/Grow grows
--     (growVault), Api/Keyslots adds and removes keyslots (keyslotAdd, keyslotRemove), Api/BruteForce
--     puts the rate limiter in front of them, and Api/Tokens manages API tokens (createToken,
--     listTokens, deleteToken). Api/Events is the channel from a creation to the client that
--     follows it (vaultEvents and the sends of Create, and cleanupJobs), Api/Pipeline the middleware
--     in the order of NewMux, and Api/Background what runs beside the requests (the goroutine of
--     createVault, the start of autoLockLoop, and the end of main.go's main).
--     Api/Stored puts the operations on a vault over the tables of Db. Api/Create is createVault from
--     its body to its reply, with the jobs and the goroutines that run, Api/Routes the routes of
--     NewMux, securityHeaders and the way of a request through the middleware, Api/Pages the handlers
--     that only read (healthz, getConfig, index, loginPage), and Api/Handler the handler's maps with
--     the sweeps over them (cleanupLimiters, cleanupJobs, cleanupSessions).
--   * main.go: Config has the parsers of the environment variables (parseMaxSize, parseBool,
--     parseList, parseAutoLockHours, parseHours), Config/Settings what main reads with them, and
--     Lifecycle what main does from the listener to the exit.
--
-- State and effects. A function that calls the operating system is a `Prog` of Sys: a tree of calls
-- that branches on every answer. `Ensures` (Sys/Ensures) says what holds of its end whatever the
-- calls answer, as seen by a monitor that watches them. Functions on the handler's maps take the map
-- and give the new one; a mutex is where one such function begins and ends. Text is a list of bytes.
-- The clock's reading is an argument, in nanoseconds.
--
-- Loops are structural recursion. Only the decimal printer runs on fuel, the number printed and one,
-- which is enough since each round divides the number by ten. Natural numbers stand for Go's integers
-- where the program has checked that they are not negative; Vault/Disk writes out the wrap-around of
-- 64-bit sizes, and Prelude/Decimal the bounds of strconv.
--
-- Outside the model: the operating system, cryptsetup, SQLite, and the packages net/http,
-- crypto, encoding/json and golang.org/x/time/rate. What the program takes from them is a call of
-- Sys or a parameter (`Limiters`, `hash`, `decode`, `eval_symlinks`, `unmarshal`, `Floats`), and where a
-- theorem needs their documented behaviour it is a named hypothesis (`IsTokenBucket`). Not modelled
-- are the JSON and the logs, the cleaning of paths by http.ServeMux, the tickers and time limits, the
-- Close and Ping of the database and the fields of http.Server, and the web pages.
pub mod Prelude
pub mod Sys
pub mod Db
pub mod Vault
pub mod Api
pub mod Config
pub mod Lifecycle
