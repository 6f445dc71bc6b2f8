-- ===== src/Tests.antt =====
-- Runs of the models at concrete data, one for each theorem that has conditions.
mod Lists
mod Pages
mod Tables
mod Text
mod Tasks
mod PageTables
mod Loading
mod Printing
mod Threads
mod Systems
mod Procs
