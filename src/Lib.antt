-- ===== src/Lib.antt =====
-- OrionServe-RS: the paged key-value cache, the continuous-batching scheduler, the engine and the
-- sampler, the streaming of text, and the layout over ranks.
--
-- OrionServe is a server for language models. Requests become sequences of tokens. The scheduler
-- (crates/orion-scheduler) decides in each step which sequences run and how many tokens each gets; the
-- cache (crates/orion-kv-cache) owns fixed-size blocks of key-value memory, shares those of equal
-- prompt prefixes, and takes them back; the core crate (crates/orion-core) holds the types they share.
-- The scheduler calls the cache through the trait KvCacheManagerLike only. The engine
-- (crates/orion-runtime) drives the scheduler, runs the model on each batch, samples a token for each
-- row and streams it to its caller; text is made of tokens on the other side of the stream, by the
-- incremental decoder and the stop matcher (crates/orion-tokenizer).
--
-- Files and what they model:
--   Prelude          shared names, Boolean tests, lists over the native numbers, values with a
--                    default, association lists.
--   Core/Error       crates/orion-core/src/error.rs: EngineError, is_retryable, is_client_error, code.
--   Core/Sequence    crates/orion-core/src/sequence.rs: Sequence and its state machine; Core/Sequence/Life
--                    has its methods in any order.
--   Core/Config      crates/orion-core/src/config.rs: the sections of the configuration and `validate`;
--                    Core/Config/Sound has the conditions.
--   Core/Float32     an f32 as its bits, with the tests and comparisons of IEEE 754.
--   Core/Sampling    crates/orion-core/src/sampling.rs: SamplingParams and `validate`; Core/Sampling/Accepts
--                    has the conditions.
--   Core/Batch, Core/Forward, Core/Model
--                    crates/orion-core/src/traits.rs: ForwardBatch and its check; ForwardOutput; DType and
--                    ModelMetadata.
--   Core/Traits      crates/orion-core/src/traits.rs: KvCacheManagerLike as a record of operations, and
--                    what it documents about who holds blocks as the record CacheLaws.
--   KvCache/Block    crates/orion-kv-cache/src/block.rs: BlockPool; Block/Accounts and Block/Free hold
--                    the accounts of references and of free blocks.
--   KvCache/Table    crates/orion-kv-cache/src/table.rs: BlockTable, blocks_required, hash_block.
--   KvCache/Prefix   crates/orion-kv-cache/src/prefix.rs: PrefixCache.
--   KvCache/Store, KvCache/Allocation, KvCache/Manager
--                    crates/orion-kv-cache/src/manager.rs: KvCacheManager and its queries; allocate; the
--                    other methods. The children of Manager hold the proofs on chunks, allocation,
--                    growth, release, publication, tables and calls in any order.
--   KvCache/Trait    the manager as an implementation of the trait, with the laws proved for it.
--   Scheduler/Queue  crates/orion-scheduler/src/queue.rs: WaitingQueue and RunningQueue.
--   Scheduler/Output, State, Pass, Prefill, Step, Lifecycle
--                    crates/orion-scheduler/src/scheduler.rs: the batch and the counters; admission and
--                    cancellation; decodes and preemption; prefills; schedule; tokens and retirement.
--   Scheduler/Pass/Keeps, Pass/Steady, Pass/Sound, Prefill/Keeps
--                    what a property of a pass needs so that both halves keep it, and two such properties.
--   Scheduler/Fake   crates/orion-scheduler/src/testing.rs: FakeCache, a second implementation of the
--                    trait; Accounts has its blocks.
--   Scheduler/Lifecycle/Known
--                    which ids each call leaves in the queues.
--   Scheduler/History
--                    the calls of a scheduler in any order, as a step relation.
--   Runtime/Batch    crates/orion-runtime/src/engine.rs: Engine::build_batch; Runtime/Batch/Total has when
--                    it succeeds.
--   Runtime/Engine   crates/orion-runtime/src/engine.rs: Engine, what it sends, and its parameters; its
--                    children Calls, Step and Serve have the methods, the step and the loop of the thread;
--                    Streams, Streaming and Contract the proofs on streams.
--   Runtime/Sampling crates/orion-runtime/src/sampling.rs: the sampler; Choice, Bounds and
--                    Failure have the proofs.
--   Tokenizer/Text   text with its lengths in UTF-8, and slices that panic within a character.
--   Tokenizer/Decoder
--                    crates/orion-tokenizer/src/lib.rs: IncrementalDecoder; Stream and Whole have the proofs.
--   Tokenizer/Template
--                    crates/orion-tokenizer/src/lib.rs: ChatTemplate.
--   Tokenizer/Stop   crates/orion-tokenizer/src/lib.rs: StopSequenceMatcher; Occurs, Detects, Watch and
--                    Truncate have the proofs.
--   Api/Types        crates/orion-api/src/types.rs and crates/orion-api/src/routes.rs: build_params, the body
--                    and the status of an error; Params has the proofs.
--   Distributed/Layout
--                    crates/orion-distributed/src/lib.rs: Rank, Shard, ParallelLayout; Partition and
--                    Aligned have the proofs.
--   Models/Run, Models/Loaded
--                    how a call of crates/orion-models ends: a value, an error or a panic, and a value or
--                    an error of loading.
--   Models/Float     the arithmetic of f32 and f64 that the kernels use, as a parameter.
--   Models/Store     crates/orion-models/src/attention.rs: KvStore; Offsets and Access have the proofs.
--   Models/Attention crates/orion-models/src/attention.rs: locate and paged_attention; Dense and Total have
--                    the proofs.
--   Models/Tensor    crates/orion-models/src/tensor.rs: Matrix, RopeTable and the kernels; Shape and Rope
--                    have the proofs.
--   Models/Quantization
--                    crates/orion-models/src/quantization.rs; Packing, Groups and Constant have the proofs.
--   Models/Config    crates/orion-models/src/config.rs: HfConfig; Names, Accepts and Described
--                    have the proofs.
--   Models/Loader    crates/orion-models/src/loader.rs: CheckpointLoader; Index has the proofs.
--   Models/Backend   crates/orion-models/src/backend.rs: CpuBackend.
--   Models/Transformer
--                    crates/orion-models/src/transformer.rs: the weights and one block; its children Load
--                    and Forward have the loading and the pass; Layer, Load/Shapes, Load/Answers,
--                    Forward/Parts, Forward/Total and Forward/Logits have the proofs.
--   the modules Tests, and Runtime/Engine/Runs
--                    concrete runs.
--
-- How the state corresponds: a method on `&mut self` is a function that returns the state after it,
-- with its result, on the error paths too. A map is an association list, a queue or a vector is a list,
-- an id is a number. The clock is an argument. Reference counts wrap at 2^32 and statistics at 2^64;
-- lengths are unbounded, but for the sum that admission compares, which wraps at 2^64. Subtraction
-- stops at 0 where the source saturates, and elsewhere only where the source does not underflow from
-- the states that occur. The scheduler is a function of any implementation of the trait.
--
-- The engine keeps what it sent, newest first: each `try_send` on the channel of a request with whether
-- the channel took the event, and each answer to a submission. The model, the sampler and the channels
-- are the fields of the record Services, with no law on them: a forward pass may depend on the time, and
-- whether a channel takes an event on all that was sent before. The engine thread is a function of a list
-- of turns, each with the commands that wait, the command that ends an idle wait, and the readings of
-- the clock. The counter behind `SequenceId::next` is a field of the engine. The sampler of
-- Runtime/Sampling is over any arithmetic of f32. What the decoding library is taken to do is the record
-- Detokenizes in Tokenizer/Decoder/Stream.
--
-- The kernels of the models are over any arithmetic: a float is its bits, and the operations are the
-- fields of the records Floats, QuantFloats and MeasureFloats, while comparisons are those of IEEE
-- 754. A slice out of range, an `expect`, a block size of zero in `locate` and `chunks_mut(0)` are a
-- panic of Models/Run, and the theorems on Models show that none occurs. A loop that fills an output
-- in order is a list built in order. The arena behind the mutex is passed along; sizes are
-- unbounded.
--
-- Bounds: `norm_chunks`, `quantize_groups` and `dequantize_groups` take as many rounds as there are
-- values, of which each round takes at least one; `chunks` takes as many rounds as there are tokens,
-- `take_finished` as many as the queue is long, and the admission loop of `schedule_prefills` 2 *
-- (budget left) + (running sequences) + 1; the lists end earlier and the loop stops by its own
-- tests, so that these are enough. `is_power_of_two` tries the 64 powers of a machine word, and
-- `last_boundary` counts down from a position. Every other loop is over a list.
--
-- Not modelled: floating-point rates, logging and assertions; the formatted part of an error
-- message; the handle of the engine, which wraps a channel of tokio; the loading of a tokenizer and
-- its encoding; the file system and the formats of the checkpoint files; the JSON shapes and the
-- routes of the HTTP interface, the command line, metrics and the CUDA backend. Outside Models,
-- where the source would panic, on an index or a slice, the model returns an error, or `none` in the
-- tokenizer. The engine applies deadlines right before a step; the histories of the scheduler have a
-- retirement in between, while the proofs on streams do not need one.
pub mod Prelude
pub mod Core
pub mod KvCache
pub mod Scheduler
pub mod Api
pub mod Distributed
pub mod Models
pub mod Runtime
pub mod Tokenizer
