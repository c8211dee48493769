-- ===== src/Tests.antt =====
-- The theorems of the components at concrete inputs, over a memory of bytes and the in-memory store.
mod ByteMemory
mod Setup
mod Encodings
mod BpmnTests
mod ObjectTests
mod StoreTests
mod CallTests
mod StreamTests
mod RecoveryTests
mod CompressTests
mod TaskTests
mod WritesTests
mod StepsTests
mod StaleTests
mod ExecuteTests
mod RunnerTests
mod FileTests
mod RefusedTests
mod ResumedTests
