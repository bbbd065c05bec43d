-- ===== src/Examples.antt =====
-- Concrete tasks, caches and schedulers, and the theorems at them.
mod Values
mod CacheExamples
mod CollectorsExamples
mod RanksExamples
mod TaskExamples
mod PoolExamples
mod SchedulerExamples
mod PackedExamples
mod ParallelExamples
mod RouterExamples
mod DenseExamples
mod MoeExamples
mod DeviceListsExamples
