-- ===== src/Retention.antt =====
-- src/retention.ts: the plan of what to archive and what to truncate.
-- It is read only: the directory is given by what listing, `lstat` and reading answer (`Disk`).
-- `path` and `Date.parse` are parameters (`Host`), the latter for dates from 1970 on; times, sizes
-- and time stamps of files are whole numbers. Names are lists of code points.
pub mod Policy
pub mod Registry
pub mod Scan
pub mod Plan
pub mod Totals
pub mod Settings
pub mod Justified
mod Examples
