-- ===== src/Lib.antt =====
-- FlashKVMoE: an LLM server whose scheduler shares the KV cache of a GPU between requests
-- (python/minisgl). This library models the scheduler, the cache of prefixes that it uses, and the
-- plain logic of the engine around them.
--
-- How the parts interact. The scheduler (scheduler/scheduler.py) receives messages of users, which
-- become pending requests. The prefill manager (scheduler/prefill.py) admits pending requests: it
-- looks up the longest cached prefix of a prompt in the prefix cache (kvcache/), locks it, takes a
-- row of the table manager (scheduler/table.py) and cuts a prompt that passes the token budget. The
-- decode manager (scheduler/decode.py) keeps the requests that generate. For a batch the cache
-- manager (scheduler/cache.py) allocates pages, evicting from the prefix cache where too few are
-- free, and writes them to the page table; the engine (engine/graph.py) pads the batch to a size
-- that a CUDA graph was captured for. The results of a batch finish requests or insert their prefix
-- into the cache, one step behind the batch that is running. Before all this the engine
-- (engine/engine.py) takes the configuration of a model (models/config.py), checks it and a
-- checkpoint against it (models/gguf.py), and sizes the cache. Messages between processes are
-- serialized to dicts (message/), rank 0 passes them to the other ranks (scheduler/io.py), and the
-- tokenizer process turns texts into ids and ids into texts (tokenizer/). For each batch the attention
-- backend (attention/) prepares offsets and page tables for its kernels; a runner can send two
-- micro-batches through one model in turns (GLMDualBatchRunner.py,
-- DeepseekV2DualBatchRunner.py).
--
-- Files, with the code they model (paths below python/minisgl):
--   Base, Base/*          lists, sums, Boolean tests and the Result monad on the native numbers
--   Utils                 utils/misc.py: div_ceil, align_down, ...
--   Core                  core.py and PendingReq of scheduler/utils.py: requests; objects are
--                         references into a store, since batches and managers share them
--   Radix                 kvcache/radix_cache.py: RadixTreeNode, split_at, _tree_walk,
--                         match_prefix, insert_prefix; Radix/Dict: the dict of children
--   Radix/Lock, Evict     lock_handle, size_info, get_matched_indices; evict
--   Radix/Shape .. Inserting   the proofs on the radix cache: the tree without counts (Shape), its
--                         sizes (Sizes, Accounting), the invariant and what a node stands for
--                         (Tree), splitting, walking and inserting (Round: one round of the walk)
--   KvCache/Interface     kvcache/base.py: BasePrefixCache as a record of operations, and the law
--                         of evict that the cache manager relies on
--   KvCache/Naive, Radix  kvcache/naive_cache.py, and the radix cache behind the interface
--   Cache, Cache/Pages    scheduler/cache.py: CacheManager and _write_page_table, over any prefix
--                         cache; Cache/Budget, Cache/Rows: proofs
--   Engine/Graph          engine/graph.py: _determine_cuda_graph_bs, pad_batch; Engine/Padding: proof
--   Engine/Config, Adjusting   engine/config.py and _adjust_config; Engine/Memory, Pages: the number
--                         of pages and the page table (engine/engine.py)
--   Models/Config         models/config.py: ModelConfig.from_hf; Config/Shapes: proof
--   Models/Specs, Gguf    models/gguf.py: the tensors of a model, and the constructor of GGUFWeights
--                         with its index (Gguf, Gguf/Indexing), shapes (Gguf/Shapes), metadata
--                         (Gguf/Metadata) and the whole (Gguf/Init); Gguf/Checking: proofs;
--                         Gguf/Parts: the mapping of models/gguf_parts.py; Parts/Tiling: proof
--   Message, Message/Classes   message/: serialization and the classes of messages;
--                         Message/Roundtrip: proof
--   Scheduler/Table, Decode, Prefill   the managers; Prefill/Chunks, Budget, Room: proofs
--   Scheduler/Mapping     the index tensors of a batch (scheduler/scheduler.py)
--   Scheduler/State, Loop scheduler/scheduler.py: messages, batches, results, the overlapped loop
--   Scheduler/Exchange    scheduler/io.py: what the ranks receive; Scheduler/Ranks: proofs
--   Attention/Metadata    attention/fa.py, fi.py, fi_mla.py: what is prepared for a batch;
--                         Attention/Lengths, Ragged, Tables: proofs
--   Attention/Capture     attention/utils.py and fa.py: the buffers of captured graphs;
--                         Attention/Replay, Graphs: proofs
--   Attention/Backend     attention/base.py, __init__.py, utils/registry.py: which backend runs, and
--                         when FlashInfer plans
--   Layers/Embedding      layers/embedding.py: the vocabulary over ranks; Layers/Vocabulary: proof
--   Dual/Run, State       calls that change a state and may raise; the context (core.py)
--   Dual/Plain, Schedule, Glm   GLMDualBatchRunner.py, at the root: a batch alone, and two
--                         micro-batches in turns; Dual/Device, Slots, Turns, Alone, Restored: proofs
--   Dual/Deepseek, Checks DeepseekV2DualBatchRunner.py, at the root, with the layers of
--                         models/deepseek_v2.py; Dual/Stages, Serial: proofs
--   Tokenizer/Printable, Detokenize   tokenizer/detokenize.py; Tokenizer/Streaming,
--                         Slices, Offsets, Sent: proofs
--   Tokenizer/Server      one round of tokenizer/server.py, and tokenize.py; Tokenizer/Gather,
--                         Rounds: proofs
--   Scheduler/Messages    what messages and scheduling keep: proofs
--   */Tests               runs and theorems at small inputs
--
-- State. Python objects that are shared are numbers into a function (the nodes of the radix tree, the
-- requests); a tensor of slots is a list, a two-dimensional tensor is a function of a row and a
-- column whose bounds are not modelled, but a list of rows where the engine makes the page table.
-- Readings of the clock are arguments. In Dual an exception keeps the state in which it was raised, so
-- that what a `finally` clause puts back is seen; everywhere else an exception ends the model. A failed
-- assertion, an exception or an index out of range is an error value of Result. Floats are a parameter type. What the gguf package, transformers, numpy
-- and torch report is data, or a function that is an argument. Sizes are natural numbers: where
-- Python's counter would turn negative the model reports an error.
--
-- Fuel. walk_from gets one round more than there are ids, and each round but the last matches a page.
-- climb gets as many rounds as there are nodes, which a way to the root without repetition does not
-- use up. collect and evict_loop get a round for each node and for each id asked for. A number is
-- printed in one round more than its value, which is more than its digits. A loop that empties a
-- queue gets the number of messages that are there when it looks. The next power of two is found in as
-- many doublings as the number itself.
--
-- Not modelled: GPU kernels, layers and models (floating-point tensors, which are arguments where a
-- model's order of calls is modelled), unpacking of
-- weights, HTTP, ZMQ and NCCL, the tokenizer of transformers, logging and timings, capture and replay
-- of CUDA graphs. The next tokens that the model answers are an argument of the scheduler's step.
pub mod Base
pub mod Utils
pub mod Core
pub mod Radix
pub mod KvCache
pub mod Cache
pub mod Engine
pub mod Scheduler
pub mod Message
pub mod Models
pub mod Tokenizer
pub mod Dual
pub mod Attention
pub mod Layers
