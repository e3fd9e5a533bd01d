-- ===== src/Tests.antt =====
-- The theorems at concrete inputs: sessions, stores and requests as the program's own tests use them.
mod Fixtures
mod StoreTests
mod PointerTests
mod OrderTests
mod MachineTests
mod ManagerTests
mod GateTests
mod CallbackTests
mod SqliteTests
mod AuthTests
mod AdapterTests
mod ServiceTests
mod RecoveryTests
mod WiringTests
