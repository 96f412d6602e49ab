-- ===== src/Tests.antt =====
-- The theorems at concrete inputs.
mod LvmTests
mod IoschedTests
mod NetTests
mod FilterTests
mod RaidTests
mod BioTests
mod FutexTests
mod WritebackTests
mod VfsTests
mod ConsoleTests
mod NeighTests
