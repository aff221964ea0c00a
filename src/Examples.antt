-- ===== src/Examples.antt =====
-- Runs of the definitions on concrete inputs, and the theorems at such inputs.
mod Reader
mod Writer
mod Headers
mod Commands
mod Window
mod Resumes
mod Distances
mod Streams
