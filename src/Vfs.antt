-- ===== src/Vfs.antt =====
-- The virtual file system: include/u-lang/Basic/VirtualFileSystem.hpp and
-- lib/Basic/VirtualFileSystem.cpp. LLVM's functions on paths are a parameter, `Paths`.
pub mod Status
pub mod FileSystem
pub mod Overlay
pub mod Memory
pub mod Concatenated
pub mod Real
pub mod FileManager
pub mod Recursive
