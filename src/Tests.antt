-- ===== src/Tests.antt =====
-- Concrete runs of the models, and the theorems at inputs that meet their hypotheses.
mod BitmapRuns
mod CacheRuns
mod DirectoryRuns
mod InodeRuns
mod PallocRuns
mod PathRuns
mod QueueRuns
mod SwapRuns
mod ThreadRuns
