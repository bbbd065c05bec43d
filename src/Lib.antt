-- ===== src/Lib.antt =====
-- chitu is a server for large language models. This library models the part of it that decides what
-- runs and where it is kept: the requests that wait and decode, the scheduler that picks a batch of
-- them, the block manager of the paged key-value cache, and the tensor by which a batch is announced
-- to the other ranks.
--
-- A step goes as follows. The scheduler (chitu/scheduler.py) takes the tasks of the pool
-- (chitu/task.py, TaskPool) that are ready, ranks them, and picks a batch of prefill or of decode
-- tasks that the cache (chitu/cache_manager.py) has blocks for, evicting decode tasks where it must.
-- The batch is announced (PackedTasksBase), the cache manager gives each request the blocks of its new
-- length, the model runs, the tasks take their tokens, and `update` removes the tasks that are done
-- and frees the scheduler's groups.
--
-- Base, with Base/Tests, Base/Lists, Base/Outcomes and Base/Dicts: shared types and lemmas. A method
-- that changes an object and may raise is an `Exec`: from the state to a result and the state, which
-- stands beside an error too. Dictionaries are association lists. Numbers are natural numbers;
-- where the source subtracts, the difference is not negative or is only compared with 0, or the
-- comment at the definition says what is cut off.
--
-- Cache/IndexMap: GlobalLocalMap. Cache/SeqLens: chitu/batched_seq_len.py. Cache/Requests:
-- KVCacheManagerBase. Cache/Paged: PagedKVCacheManager, the free list and the block table; its theorems
-- are in Cache/Paged/Conserved and History (where the blocks are), Capacity (when they suffice) and
-- Release (the end of a request). Cache/Dense: DenseKVCacheManager, with Cache/Slots for SlotHandle (Shares: the sizes of the slots) of
-- chitu/global_vars.py; Cache/Dense/Slotted, Searches, Moves and Release are about who has which slot.
--
-- Task: the class Task and chitu/task_type.py; Task/Prefill and Task/Stopping are about its two phases.
-- Pool: TaskPool; Pool/Keys.
--
-- Scheduler: `schedule` and `update`; Scheduler/State its state, with the pool and the cache of its
-- node (`World`); Scheduler/Rank the scoring; Scheduler/Batches the two batch builders and the
-- eviction. Rank/Preference, Rank/Sorted, Ready, Sound, Budget, Eviction, Groups, Batches/Cleared and
-- Batches/Frame are about them.
-- `EndTask`, which an eviction sends through the executor, is the call of the cache manager that it
-- leads to. Scheduler/Ranks and DpFifo: DPFifoScheduler, as `schedule_dp`; below DpFifo, Capacity is about
-- the slots of the ranks, Owners, Each and Routes about which rank a task is sent to, Chunks about the
-- tokens of a step. Scheduler/Skew has the binary search of SkewScheduler.
--
-- Collectors: PackedTasks, DPTaskCollector and PPTaskCollector of chitu/task.py; Collectors/Sweep and
-- Drain. DpFifo hands its lists to DPTaskCollector.
--
-- DeviceLists: chitu/device_list.py, the lists of tokens on the device and the buffer that some of them
-- share. DeviceLists/Rows says when each list has a row of its own, Install, Kept, Push, Fresh,
-- Single and Batch what the operations do to that.
--
-- Packed: serialize and deserialize; Packed/Ids the encoding of ids, Packed/Payload the kinds of
-- payload, Packed/Layout, Packed/Sent and Packed/RoundTrip what arrives.
--
-- Parallel: chitu/distributed/parallel_state.py and chitu/distributed/comm_group.py, which divide the
-- processes into groups. Parallel/RankLists has the lists of ranks, Parallel/CommGroup the process
-- groups and the constructor of CommGroup, with torch's calls as parameters, Parallel/Groups
-- the groups that a process sets at its start, Parallel/Layers compute_layer_dist_in_pipe of
-- chitu/utils.py. Parallel/Blocks, Partition, Membership, Init, Ring and Start are about them.
--
-- Router: chitu/dp_request_router.py, the front of several schedulers. Router/Balancer is LoadBalancer,
-- Router/Requests the queue of RequestRouter and one iteration of each of its tasks; a run is a list
-- of such iterations. Router/Eligible, Choice, Turns and Order are about them.
--
-- Moe: chitu/moe/load_balancer/planner.py, the placement of the experts of a layer and its update by
-- exchanges. Moe/Placement has the state and `apply_actions`; Moe/Cells, Swap, Exchange and Actions are
-- about it. Moe/Default has the constructor, with the placement at the start; its Collected and Placed
-- are about that.
--
-- Examples: test data, and the theorems at them.
--
-- Fuel: `hex_from` has one more than the number, which is more than the number's digits, and
-- `search_start` has the length of the group, since each turn shortens the part that is left.
-- All other loops are recursion on the list, or the range, that the source loops over.
--
-- Not modelled: tensors of keys and values and what is computed on a device, the model itself, sockets
-- and services, timers and metrics, the rest of the skew
-- scheduler, multi-token prediction in the cache, and the construction of tasks from requests.
pub mod Base
pub mod Cache
pub mod Task
pub mod Pool
pub mod Scheduler
pub mod Packed
pub mod Parallel
pub mod Router
pub mod Moe
pub mod Collectors
pub mod DeviceLists
pub mod Examples
