-- ===== src/Lib.antt =====
-- The OKSAI API server: a model of its core services and what is shown of them.
--
-- The server is a set of plugins around a registry (libs/plugin), with a guard in front of the
-- routes, shared middleware and services (libs/common, libs/core), the services behind the plugins
-- (libs/sys-plugins), which answer the controllers over a database, and an MCP server with sessions
-- (libs/mcp-server). The services of libs/sys-plugins call those of libs/core: logging out
-- blacklists a token in Redis, and a refresh asks the blacklist.
--
-- Base        shared names, lists, maps with JavaScript's order of insertion, and methods that may
--             throw (Base/Exec: what was written before a throw stays written).
-- Plugin      libs/plugin/src.
--   Types          enums/plugin-type.enum.ts and the interfaces. `Host` is the state of the
--                  registry and the loader together. A plugin's own methods are the parameter
--                  `Hooks`: for each call, given the calls before it, whether it returns, throws
--                  at once or returns a promise that is rejected. Each call is recorded.
--   Registry       services/plugin-registry.service.ts: register, unregister, updateStatus, the
--                  views, clear.
--   Loader         services/plugin-loader.service.ts: Load (loadPlugins, loadPlugin), Unload
--                  (unloadPlugin, reloadPlugin, onModuleDestroy, getDependents), Switch
--                  (disablePlugin, enablePlugin). Lifecycle holds what is shown of them.
--   Dependencies   checkConflicts and the search checkCircularDependencies of the same file. The
--                  search takes fuel, one more than there are registered plugins: every level of
--                  the recursion marks another registered plugin as visited. Graph describes
--                  cycles without the search.
--   Guard          guards/plugin-status.guard.ts: canActivate, extractPluginName.
-- Session     libs/mcp-server/src/lib/session. Storage is the interface of session-storage.ts with
--             the laws the manager relies on, Memory is memory-storage.ts, Manager is
--             session-manager.ts over any storage.
-- RateLimit   libs/common/src/lib/middleware/rate-limit.middleware.ts. The counting objects live in a
--             heap, as a response keeps the object of its request. Heap relates the heap to a map
--             from keys to counters, Window counts requests, Responses is about `send`, Cleanup
--             about the sweep, Reachable about sequences of all operations.
-- Core        libs/core/src/lib. Redis is the server as a parameter with the laws that the code relies
--             on, Blacklist is jwt-blacklist.service.ts over it, Password and Hashing are
--             utils/password.utils.ts, Jwt is utils/jwt.utils.ts over any token library. MemoryRedis and
--             PlainJwt are a server and a token library for trials.
-- ServerManager  libs/mcp-server/src/lib/mcp-server-manager.ts over any server class. Invariant is about
--             each method, Runs about sequences of them.
-- Orm         the database as a parameter: Repository is what the services call, with the laws that they
--             rely on. Unique says what a request may do to a table with regard to clashing rows,
--             Table and Pair are tables in memory.
-- SysPlugins  libs/sys-plugins: Tenants (tenant.service.ts), Organizations (organization.service.ts),
--             Users (user.service.ts), Roles (role.service.ts, guards/permissions.guard.ts and the
--             decorator), and Auth (auth.service.ts: Sessions, Registration, Resets, Accounts). Of
--             Auth, UserChanges and Emails are about the users' rows, Cleared, Bindings and Primary
--             about the accounts', Signup, Recovery and Tokens about methods one after the other.
--             Permissions is auth/src/lib/permissions.service.ts but for assignPermissionToRole and
--             assignRolesToUser, which read collections that they do not load, and Granted in it what
--             a user is granted by its roles. Of Users, Changes, Updates and Requests say what a
--             request does to the table, Isolation what it leaves; of Roles, Changes and Unique.
--             Passwords is what they ask of utils/password.utils.ts
--             and how Hashing fills it.
--
-- Each component's modules named Tests run its theorems on concrete data.
--
-- Numbers are natural numbers; times are milliseconds. The clock, generated identifiers and the
-- metadata of the web framework are arguments. Not modelled: the logger; what other requests do at
-- an `await`; plugins' methods that call the services again; fields that no modelled method reads;
-- databases, Redis, the mail queue, the token library and scrypt, which are parameters; the
-- remaining services of libs/sys-plugins and libs/core; the transports and tools of libs/mcp-server.
pub mod Base
pub mod Core
pub mod Orm
pub mod Plugin
pub mod RateLimit
pub mod ServerManager
pub mod Session
pub mod SysPlugins
