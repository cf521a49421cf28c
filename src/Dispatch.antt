-- ===== src/Dispatch.antt =====
-- io.c: the dispatcher of IO commands, the table of requests in flight and the worker that completes
-- them.
pub mod Types
pub mod Prp
pub mod Transfer
pub mod Completions
pub mod Ring
pub mod Table
pub mod Units
pub mod Commands
pub mod Worker
pub mod Doorbell
pub mod Delivery
pub mod Chain
pub mod Insert
pub mod Links
pub mod Lists
pub mod Freed
pub mod Reclaim
pub mod Place
pub mod Enqueue
pub mod Rounds
pub mod Serves
pub mod Service
pub mod Served
pub mod Steps
pub mod Parted
pub mod Reach
pub mod Release
pub mod Examples
pub mod Runs
