-- ===== src/Tests.antt =====
-- The theorems at concrete inputs.
mod Samples
mod DomainTests
mod StoreTests
mod AppTests
mod AdapterTests
mod AuthTests
mod HttpTests
