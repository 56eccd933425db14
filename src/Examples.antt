-- ===== src/Examples.antt =====
-- The theorems of the library at concrete inputs, and tests of the definitions.
mod Bits
mod Booting
mod Sellers
mod Queue
mod Directories
mod Drive
mod Files
mod Frames
mod Growth
mod Kernels
mod Tasks
mod Creation
mod Semaphores
mod Text
mod Pages
mod Screen
