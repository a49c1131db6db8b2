-- ===== src/Lib.antt =====
-- FlashGate MCP: a server that gives a client access to the files below one root directory, by
-- JSON-RPC messages, one to a line.
--
-- A message passes from internal/mcp/transport (bytes to lines) and internal/mcp/server (the loop,
-- the validation of a message) to internal/mcp/revision (the revision of the protocol that it is
-- made under) and internal/mcp/router (the handler of its method). The handlers are those of
-- internal/mcp/initialize and of tools/list and tools/call in internal/mcp/tools, whose tools act on
-- the files by internal/fs, which resolves every path of a client by the guard of internal/security.
-- internal/config reads the limits and the policy from the environment, and cmd/server makes the
-- file system, the tools, the router and the server of them.
--
--   Base, Base/*       library names, lists over the native numbers, texts, results of Go calls
--   Filepath, /*       the functions of Go's path/filepath that the program calls, by their
--                      documentation for Unix: Clean, Join, Dir, IsAbs, Rel
--   Errors, Os, Os/*   the errors, and the calls of package os. An operation is a tree of calls,
--                      with a branch for every reply of the system (`Os`), so that a theorem
--                      about its calls holds also where other processes change the files in
--                      between. `run` is a run against files that do not change, and `drive`
--                      one against a system with a state, which keeps the calls
--   Security, /*       internal/security/path.go and policy_unix.go: NewPathGuardWithPolicy,
--                      ResolveExisting, ResolveForCreate, AllowListEntry and their tests
--   Fs/Types           internal/fs/filesystem.go
--   Fs/Reading, /*     List, Read and Stat
--   Fs/Writing, /*     Write, Mkdir, Delete and Copy
--   Fs/Moving, /*      Move, with move_unix.go
--   Config, /*         internal/config: LoadFromEnvironment, Validate
--   Json/*, Protocol   the trees of encoding/json, and internal/protocol
--   Mcp/Transport, /*  internal/mcp/transport: ReadMessage, WriteMessage
--   Mcp/Validation, /* internal/mcp/server/request_validation.go
--   Mcp/Revision       internal/mcp/revision and internal/mcp/discovery
--   Mcp/Registry, /*   internal/mcp/tools/registry.go
--   Mcp/Router, /*     internal/mcp/router/router.go: DispatchRevision
--   Mcp/Server, /*     internal/mcp/server/server.go: Run and what it calls
--   Mcp/Initialize, /* internal/mcp/initialize
--   Mcp/Tools/*        internal/mcp/tools: Arguments (params_validation.go), Outcome
--                      (tool_error.go), Schema (output_schemas.go), Tool (annotations.go), the
--                      eight tools in Reading, Writing and Transfer, Calling (tools_call.go, with
--                      the envelopes of internal/protocol/tools.go) and Listing (tools_list.go).
--                      Conformance reads an output schema as a test of a result
--   Version, /*        internal/version
--   Mcptest, /*        internal/mcptest/call_tool_result.go: what a client reads in a result
--   Benchmark/*        statistics.go, strict_json.go and process_metrics_linux_parse.go of
--                      internal/benchmark
--   Command/Boot, /*   tools_boot.go, router_boot.go and server_boot.go of cmd/server
--   Command/Cli, /*    cli.go and main.go of cmd/server
--
-- Names follow the source, in snake_case: resolveExistingParent is `resolve_existing_parent`. A
-- function with several early returns is cut at them, and the pieces stand above it.
--
-- Bounds. Texts are lists of codes, those of their characters. A limit is a natural number, with 0
-- for every value that is not positive. Three loops climb from a path to its parents; their fuel is
-- the number of the path's elements, or one more, and each round takes an element away. The
-- fuel of the request loop is one more than the bytes of the input.
--
-- Parameters. What decodes the bytes of a line to JSON and what encodes a response are functions
-- that the theorems of the request loop take, and so are the texts of JSON strings and values
-- (`Encoding`), the system behind package os, package time (`Clock`), and, for
-- what a client reads, the value of a text and reflect.DeepEqual; and sort.Slice. That the working
-- directory is absolute is a hypothesis of the theorems that need it.
--
-- Not modelled: the Windows files, the debug log and its redaction, the text of errors that carry a
-- path or a number, the order of the keys of a JSON object that is written, the test of injected
-- dependencies for nil, and the tools beside the server (releases, documents,
-- and most of the benchmarks).
pub mod Base
pub mod Filepath
pub mod Errors
pub mod Os
pub mod Security
pub mod Fs
pub mod Config
pub mod Json
pub mod Protocol
pub mod Mcp
pub mod Version
pub mod Command
pub mod Mcptest
pub mod Benchmark
