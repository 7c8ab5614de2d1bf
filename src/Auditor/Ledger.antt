-- ===== src/Auditor/Ledger.antt =====
-- The store of reservations as a ledger: when its tables are well formed, and the calls that change
-- them.
pub mod Backing
pub mod Updates
pub mod Totals
pub mod Reserving
pub mod Returning
pub mod Preparing
pub mod Keeping
pub mod Settling
pub mod Applying
pub mod Transactions
pub mod Histories
pub mod Lookups
pub mod Moving
pub mod Shares
pub mod Late
pub mod Caps
pub mod Cancelling
pub mod Committed
use zadper.Auditor.Tables.{Db}
use Backing.{Backed}
use Updates.{DistinctRows, DistinctReplays, Readable}

pub record IsWellFormed (db : Db) : Type 0 where
  pub distinct : DistinctRows db.reservations
  pub unique : DistinctReplays db.replays
  pub backed : Backed db.reservations db.replays
  pub readable : Readable db.reservations
