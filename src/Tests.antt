-- ===== src/Tests.antt =====
-- Runs of the models on concrete inputs, among them each theorem at one input.
mod Board
mod Memories
mod Texts
mod Numbers
mod Sorting
mod Devices
mod Machine
mod Threads
mod Exec
mod Cells
