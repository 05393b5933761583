-- ===== src/Traffic.antt =====
-- Traffic accounting of a site: the billing view of the two directions, the quota gate, the
-- request meter and the metered response writer.
pub mod Billing
pub mod Quota
pub mod Meter
pub mod Transfer
