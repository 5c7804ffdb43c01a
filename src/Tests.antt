-- ===== src/Tests.antt =====
-- The theorems at concrete inputs, and runs of the models.
mod RingSamples
mod RingExamples
mod ReachExamples
mod ListSamples
mod ListExamples
mod ChainSamples
mod ChainExamples
mod TreeSamples
mod TreeExamples
mod FlagExamples
mod HeightSamples
mod HeightExamples
mod FileExamples
mod DeviceExamples
mod WorkerExamples
