-- ===== src/Lib.antt =====
-- Serpentine: a build system whose programs are written in the language snek.
--
-- The front end turns files into a graph: the tokenizer reads characters, the parser builds a
-- syntax tree, the resolver gives every name a symbol and every function an id, and the compiler
-- inlines the calls of snek functions into a graph of builtin nodes. The engine evaluates the
-- graph: each node kind types its calls at compile time and executes them at run time, and results
-- that can be cached are, in a folder that processes may share. A node that runs a command starts a
-- container with the services attached to it, over a tree of networks that the sidecar makes beside
-- containerd; files go to the sidecar and back as a stream of entries.
--
-- Files, and the code they model (paths from the repository's root, under serpentine/src):
--   Prelude          shared names; Prelude/Tests the Boolean tests and their type class, Prelude/Lists
--                    lengths and indices, Prelude/Outcome results (a value, an error, a panic, out of
--                    fuel), Prelude/Map hash maps, Prelude/Text texts as code points and their UTF-8
--                    byte offsets
--   Snek/Span        snek/span.rs: Span, Spanned
--   Snek/Token       snek/tokenizer.rs: Token and Token::describe
--   Snek/CompileError  snek/mod.rs: CompileError
--   Snek/Tokenizer   snek/tokenizer.rs: tokenize, read_next_token, handle_string, advance_while, peek,
--                    advance, span, with the tokenizer's state passed on. Children: Position,
--                    Loops, Words, Reads and Spans (where the loops stand and what they emit),
--                    Strings (literals)
--   Snek/Ir          snek/ir.rs: Pipeline, Function, Node, Body
--   Snek/Compiler    snek/compiler.rs: compile, compile_node, compile_builtin, handle_custom_arguments,
--                    create_phantom_noop, push_node_with_cache, get_symbol, in a monad over the state
--                    Compiler. Children: Denotation (typing derivations over a graph), Dedup (the
--                    cache of nodes), Invariant, Builtins and Preserves (the invariant and the
--                    operations), Soundness, Termination
--   Snek/Ast         snek/ast.rs: the syntax tree
--   Snek/Parser      snek/parser.rs: every method of Parser, in a monad over the tokens that are left.
--                    Children: Grammar (the language's grammar as relations between the tokens before
--                    and after a phrase), Primitives, ReadsExpressions, ReadsStatements
--   Snek/VirtualFile  snek/span.rs: VirtualFile, and the search of read_span. Child: Offsets
--   Snek/Scope       snek/resolver.rs: ScopeItem and Scope
--   Snek/Resolver    snek/resolver.rs: Resolver's methods on names, literals and expressions, and
--                    StatementContext. Children: Statements (resolve_statement), Modules (get_module,
--                    resolve_module, create_prelude, resolve), Invariant (of the state), Calls,
--                    Bodies, Imports and Resolves (the operations and the invariant), Repeats
--   Snek/CompileGraph  snek/mod.rs: compile_graph. Child: Composed
--   Engine/Cache/Local  engine/cache/filesystem_backend.rs: LocalCacheBackend's read_key and write_key,
--                    ScratchFile's poll_write and poll_shutdown. Children: Trace (what processes do
--                    with the folder, as steps), Keeps, Complete
--   Engine/Container  engine/containerd/container_config.rs: the states of containers and services.
--                    Children: Config (the operations on them), Layout (into_topology, get_cmd), with
--                    Invariant (which services a tree runs)
--   Engine/DataModel engine/data_model.rs: Data, CacheableData, DataType, Store::push, Node, Graph.
--                    Child: Cache
--   Engine/Exec      engine/containerd/exec.rs: create_container, construct_spec_user, read_stdout,
--                    wait_for_command_success. Children: Starting (spinup_topology), Stopping
--                    (spindown_topology), Running (get_network, exec_internal, exec,
--                    exec_get_output), Renames (the state that a command leaves, and the lemmas on
--                    it: Restored, Starts, Ends), Executes
--   Engine/Nodes     engine/nodes.rs: NodeImpl's return_type and execute for Noop, LiteralNode, All,
--                    Join and Wrap, RawData, and the table prelude. Children: Cached
--                    (execute_raw, with the cache as the interface Cache), Inputs (All's
--                    resolve_inputs), Typing, Caching, Answers (execute_raw after any calls)
--   Engine/Scheduler engine/scheduler.rs: get_output, execute_node and resolve_all as steps on the
--                    cells of the outputs. Children: Values and Reference (a recursive evaluation
--                    without cells), Progress (steps to the end), Once (how often a node is
--                    started)
--   Engine/UserDb    engine/userdb.rs: the parsing of user strings, passwd and group files, and
--                    OciUser::resolve. Children: Resolved, Reads (how a user string is read)
--   Internal/Network  serpentine_internal/src/network.rs (under the root): Topology and TopologyIter.
--                    Children: Visits (the iterator), Shapes (the order, zip and equality), Sorted (trees in order)
--   Internal/Frames  serpentine_internal/src/lib.rs: write_postcard_frame and read_postcard_frame over
--                    lists of bytes. Child: RoundTrip
--   Internal/Files   serpentine_internal/src/lib.rs: read_disk_to_filesystem_stream and
--                    read_filesystem_stream_to_disk. Children: Trees (what a stream describes), Writes,
--                    Reads
--   Sidecar/Subnets  sidecar/src/main.rs (under the root): pick_subnet. Child: Bounds
--   Sidecar/Networks  sidecar/src/main.rs: realize_topology, create_network_namespace, apply_network.
--                    Children: Shapes (the shape of a network), Links (shared bridges)
--   Tests            runs and theorems at small inputs
--
-- Representation. A text is a list of code points, and a byte offset is compared with the UTF-8
-- lengths of the characters before it; a slice at an offset inside a character fails, as in Rust. A
-- usize is a natural number: all that are modelled count bytes or elements of what is in memory. An
-- i128 literal is checked against 2 ^ 127 - 1. Store ids are indices; a wrong index or an undefined
-- symbol is a panic, as the code's expect. A hash map is an association list with the newest entry
-- first, and none is iterated over. The texts of formatted messages are kept as data (Description,
-- Count), and error values of the standard library inside CompileError are left out. A file system
-- is a value of a type P that the development never looks into.
--
-- Bounds. The tokenizer's loops run on the number of characters and one more, each round taking a
-- character at least. The compiler runs on the number of functions and one more, the depth of calls
-- where a function calls only functions before it, which is how the resolver hands ids out. The parser's
-- loops, expressions and function definitions run on the number of tokens that are left and one
-- more, since every round and every level takes a token. The resolver's fuel bounds the depth of the
-- imports: each level marks a path of a readable file that was not in the module cache, so one more
-- than the number of such paths is enough.
--
-- The stream of files runs on the depth of the folders, of which the size of the tree is a bound.
--
-- Containers. A BTreeMap is the list of its entries in the order of their keys (IsOrdered). What
-- containerd and the sidecar answer to one container is the record Calls, and a container is known
-- by its place in the tree: since every call is made once, the answers at a place may be anything,
-- whatever runs beside it. The runs of a healthcheck are numbered from the last.
--
-- The local cache. Its folder is a map of entries by their file names and one of scratch files by
-- their uuids, which several processes share; a poll is given what the file system answers. The
-- lock, the test for an entry and the creation of a scratch file are one step, and bytes that are
-- written are in the file at once: that tokio reports a failed write at a later poll is not modelled.
--
-- Networks. An address is its 32 bits, and the texts of the network configurations are kept as data.
-- The counter of the subnets has 16 bits and wraps; other connections may take subnets between any
-- two calls.
--
-- The resolver's state holds what its methods are given to change: the resolver itself, the top level
-- body and the statement's context. A scope is its items and those of the scopes around it. Symbols
-- are natural numbers: the program panics past the largest usize, after it is out of memory.
--
-- Parameters. Paths, directories, the bundled library and reading are the interface Files. The character classes of
-- the standard library (CharClasses), and the functions inside
-- Wrap, which call containerd, the network and the host: what is assumed of them is Keeps, that a
-- passthrough node returns a container for a container and a service for a service. The cache is the
-- interface Cache with the law IsCache; the hash of a key, the health check and the wrapping of an
-- error with its node's place are functions. In one call the wrapped functions are pure, one for
-- each signature of a Wrap, so that nodes of one signature share it (WorkingDir and User do); a
-- later call may have others. What a health check or an export does outside the program is left out. The streams
-- take the serializer (Codec), the operations on paths (PathLib) and the calls of the file system
-- (Disk, Target) as parameters, on a unix system.
--
-- The scheduler. A step starts a node that someone awaits, ends a task, or aborts one because a node
-- has failed, so a run is any interleaving. What an execution may give is a relation Runs; that it
-- gives something is a hypothesis of progress only, and that it gives one thing (RunsTo) one of the
-- comparison with the recursive evaluation.
--
-- Not modelled: debug assertions (the release build's behaviour is modelled); that memory for a frame
-- of a huge length cannot be had; the internal error for a container's spec that cannot be serialized; the cache's
-- hash and its store on GitHub; snapshots, images and the constant parts of a container's spec; the services that the engine calls (containerd, docker, the
-- sidecar process, GitHub's cache); the command line and the reports on the terminal.
pub mod Prelude
pub mod Engine
pub mod Internal
pub mod Sidecar
pub mod Snek
pub mod Tests
