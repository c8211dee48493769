-- ===== src/Lib.antt =====
-- Durable execution of WASM guests: a guest checkpoints its linear memory to a snapshot store, its
-- host calls are logged, and after a crash a new session restores the memory and answers the calls
-- that were made from the log.
--
-- The parts and their files:
-- Base: lists, maps, integers, bytes and Boolean tests that the other modules share.
-- Types: the errors, InstanceMeta and OplogEntry of types.go.
-- Store: the interface SnapshotStore of types.go as a record of operations on a state. Store/View
-- holds the abstract contents of a store and what each operation does to them, Store/Contract what
-- the engine expects of a store. Store/Memory is memory_store.go, operation by operation; a map is
-- an association list, the mutex makes each operation one step, and `encoding/json` on the active
-- index is the parameter IndexJson. Store/Memory/Refines relates it to the contract, and
-- Store/Memory/Fencing treats any interleaving of the operations of several sessions.
-- Store/Memory/ActiveIndex treats the entries of the active index.
-- Store/Files is fs_store.go, operation by operation, over the parameters FileSystem (the calls of
-- `os`), and Formats (gzip and JSON); a decoding that fails gives no part of a value.
-- Store/Codec: the encodings that the stores share, as parameters. Store/Objects is s3_store.go,
-- operation by operation, over the parameter ObjectStore, the calls of the S3 client on the
-- bucket; its children treat the keys (Keys), what is expected of the service (Lawful), the
-- refinement of the contract (Contents, Writes, Steps, Swaps, Refines; Store/Restrict is a store
-- on the states with a property), the swap by ETag (Fencing, Progress), the active index, errors
-- that are taken for a missing object (Mistaken), and a write between the read and the write of
-- another (Lost). Several processes may use one bucket: an operation that reads an object and then
-- writes it is one step here only if no other process writes that object in between.
-- Compress: compress.go with its pools, over the writers and readers of compress/gzip (Gzip);
-- which item of a pool a call is given is an argument. Compress/Pooled makes of it the codec that
-- the stores take, and Compress/Calls treats the calls that share the pools.
-- Linear: wazero's api.Memory as a record of operations (read, write, grow), and what its
-- documentation says of them (IsLinear) as laws that theorems assume.
-- Session: Session of types.go. A Machine is a session with the state of the store, the guest's
-- memory and the world that the host's handlers act on; a host function is a function on machines,
-- with a value, an error or a panic at its end (Outcome).
-- Engine/Blocks: the 4096-byte blocks of a memory, FNV-64a and the two loops over blocks of
-- wasman.go. Engine/Checkpoint: the host function `checkpoint`, also where it is cut off (Torn).
-- Engine/Restore: the restoration in ExecuteWithArgs. Engine/Recovery: when what is stored stands
-- for a memory, and the way from a checkpoint to the restoration. Engine/HostCalls:
-- `host_get_time` and `host_call_api`, live and replayed; Engine/Decimal: the decimal texts that
-- the log holds. Engine/Execute: ExecuteWithArgs with its choice of a module (Engine/Construct is
-- NewEngineWithBytes); the runtime is the parameter Wazero, and what a guest does is a function on
-- machines that the runtime gives.
-- Engine/Exchange and Engine/Bpmn: RunBPMN, on one module instance (the exchange buffer), and with
-- the sessions and module instances that stay alive (BpmnHost); CloseInstance.
-- Stream: handleDownload and handleUpload of session.go and the host function `stream_data`.
-- Context: the values that types.go and wasman.go put into a context.Context.
-- Guest: runner/runner.go, the library that a guest is linked with: the stream reader and writer,
-- CallAPI and the builder of its requests (Guest/Builder), Run over the steps of a workflow with
-- its counter, which a guest has in its memory, and the engine's checkpoint (Guest/Steps), and
-- RunTask (Guest/Task) over JSON and the guest's allocator as parameters (TaskRuntime).
-- Runner: runner_builder.go; what it calls of the engine is the parameter EngineApi.
-- Tests: a memory of bytes, and the theorems at concrete inputs.
--
-- Conventions and bounds. A Go string and a byte slice are lists of numbers. An int32 is an
-- integer, the conversions of lengths and addresses wrap around at 2^32 as in Go, and so does the
-- int32 sum of a pointer and a length in the bound of a slice, which then panics. Versions and call
-- indices are natural numbers that are never large enough to overflow. A byte slice that `Read`
-- returns is a view of the memory, so writes through it are writes to the memory. The loops over
-- blocks, oplog entries and deltas are recursions on what is left of them; there is no fuel but that
-- of Engine/Decimal.digits_of, 20 digits, which are enough for 64 bits, of
-- Guest/Download.read_stream and Guest/Task.decode_from, one unit for a read, and of
-- Guest/Steps.run, one unit for a step, where the theorems say how much is enough. A Go map is
-- walked in the order of its association list. That the page hashes of a session are a nil
-- map until `_start` has ended, on which an assignment panics, is the field `hashes_made`, beside
-- `page_hashes`, which is empty until then.
--
-- Not modelled: the registration of the host functions with wazero, NewS3SnapshotStore,
-- runner/runner_stub.go, Engine.Store, logging, and the examples. An
-- execution is one at a time on a machine; the concurrency of sessions is that of the operations of
-- the store.
pub mod Base
pub mod Types
pub mod Store
pub mod Linear
pub mod Session
pub mod Engine
pub mod Stream
pub mod Guest
pub mod Compress
pub mod Context
pub mod Runner
pub mod Tests
