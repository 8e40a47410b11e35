-- ===== src/Lib.antt =====
-- Vedox: the parts of the command line program and its daemon, modelled and proved.
--
-- The program keeps documentation workspaces. Its daemon serves an HTTP API; agents reach it with
-- keys, by signed requests or by JSON web tokens, and it runs jobs in goroutines, such as scans of
-- a workspace and generations of names. Documents carry a history that is told as changes of
-- their blocks. All paths below are from the repository's root.
--
-- Base: numbers, strings, maps and text that the other modules share. A Go string is the list of
--   its bytes (Bytes), or of its code points where the program reads text (Base/Text); a map is an
--   association list (Base/Dict); an instant is a natural number of nanoseconds. Base/Paths is what
--   the program uses of package path, Base/Search of the searches of strings and bytes.
-- Analytics: apps/cli/internal/analytics. Events is events.go, Collector is collector.go: the
--   callers of Emit and the goroutine of `run` as steps, in `Run`, and the goroutine alone, in
--   `work`.
-- AtomicFile: the calls by which a file is replaced, shared by agentauth.go, registry.go,
--   local_adapter.go and atomic.go, with the failure of each, of the cleanup behind it, and a crash
--   between or in any two of them, which loses bytes that were not synced.
-- Secrets: apps/cli/internal/secrets/secrets.go is the interface SecretStore, a record of
--   operations over a state, and inmem.go is Secrets/InMemory, which fills its laws.
-- AgentAuth: apps/cli/internal/agentauth. Nonce is nonce.go, RateLimit is ratelimit.go, Signing is
--   hmac.go, KeyStore is agentauth.go (KeyStore/Metadata its file, call by call, with failures and
--   crashes), Jwt is jwt.go, Middleware is middleware.go. `serve` composes them as the handler
--   does: `authenticate` is steps 1 to 5 (Middleware/Authentic), `admit` is the rate limit, the
--   nonce and the scope. The LRU cache, the token bucket, SHA-256, HMAC, JSON and base64 are
--   libraries' and stand as parameters with their documented laws; Lru and Tests fill them with
--   concrete functions.
-- Ai: apps/cli/internal/ai/jobs.go. Each goroutine has a phase, and `Step` says which may move
--   next, so that `Run` is any interleaving; the buffered channel is its count and capacity.
-- Scanner: apps/cli/internal/scanner/progress.go, with the same device.
-- Codepreview: apps/cli/internal/codepreview/resolver.go. Anchor is parseAnchor, Files the checks
--   of paths and the lines of a file, Codepreview is Resolve; the file system is a parameter.
-- Docgraph: apps/cli/internal/docgraph/graph_query.go, from the rows of its two queries on.
--   Targets is resolveTarget, Docgraph is the graph. Maps are walked in the order of their lists,
--   which the sort of the nodes hides.
-- History: apps/cli/internal/history/differ.go. Blocks is splitBlocks, Myers is myersDiff and
--   DiffDocs, Changes is opsToChanges. Below Myers, Moves has walks and scripts, Sweep and
--   Rounds what a round writes, Frontier and Reach its points, Shortest the result.
-- Providers: apps/cli/internal/providers. Types is providers.go, Symlinks and Files are atomic.go,
--   Receipts is receipt.go. Lifecycle is Install, Verify, Repair and Uninstall over an `Adapter`,
--   and Claude is the adapter of claude.go, with Fence for its block in CLAUDE.md. The key issuer
--   is an interface, as in the code. SHA-256, JSON, YAML and url.Parse are parameters; what the
--   operating system answers in one operation is a `Host`.
-- Registry: apps/cli/internal/registry/registry.go. Changes is what each operation does to the
--   manifest; Registry itself reads, locks, writes and caches. Agreement is its invariant, Refined
--   the map that it stands for. JSON is a parameter with two laws.
-- Store: apps/cli/internal/store/local_adapter.go. Names is isSecretFile; Store is safePath and the
--   operations. Files are bytes by the path that no link is part of; `leads_to` of a `Host` says
--   where the links among the folders of a path take it, and that the last name of a path is a
--   link itself is left out. YAML is a parameter. The watcher is left out.
-- Importer: apps/cli/internal/importer/importer.go, over Store. Copied says what an import is to do
--   with each document, Faithful that it does. The source is a tree that stays as
--   it is while it is walked; Metadata is buildDBDoc. The importer's own copy of isSecretFile is
--   the store's, and the database is a map by id of which each write may fail.
-- Voice: apps/cli/internal/voice. Intent is intent.go, with the confidence counted in tenths;
--   Pipeline is the loop of pipeline.go, with its events in the order in which `select` takes them.
--
-- Loops are structural recursion. Where they are not, fuel bounds them: the rounds of splitBlocks
-- by the number of lines, of which each round takes one at least; the snake by the number of old
-- blocks, which x cannot pass; the search by n + m + 1 rounds, the bound of the Go loop itself.
-- Indices of the array `v` are shifted by max = n + m as in the code, so they are natural numbers.
--
-- Locks are modelled by their critical sections, each of which is one step. Not modelled: logging,
-- the text of error messages and the JSON of replies, the network, the database and its SQL (the
-- registry's mirror there is best effort), other processes that write the same files, git,
-- the operating system's keychain and processes, the watchers of files, the installers for Codex,
-- Copilot and Gemini, which differ from Claude's in their files, and the editor and web site,
-- which are written in another language.
pub mod AgentAuth
pub mod Ai
pub mod Analytics
pub mod AtomicFile
pub mod Base
pub mod Codepreview
pub mod Docgraph
pub mod History
pub mod Importer
pub mod Providers
pub mod Registry
pub mod Scanner
pub mod Secrets
pub mod Store
pub mod Voice
