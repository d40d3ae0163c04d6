-- ===== src/Tests.antt =====
-- Concrete runs of the model, and the theorems applied at concrete inputs.
mod Assembly
mod Bitmaps
mod Compiling
mod Directories
mod Calls
mod Disks
mod Editing
mod Heaps
mod Packets
mod Programs
mod Tables
mod Texts
mod Volumes
