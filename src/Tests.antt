-- ===== src/Tests.antt =====
-- Concrete images and machines, and runs on them.
mod Data
mod Fdt
mod Printf
mod Machines
mod Outcome
mod Wire
mod Drivers
mod Fit
mod Garbled
mod Moved
mod Loader
mod Written
