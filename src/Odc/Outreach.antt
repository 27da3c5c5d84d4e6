-- ===== src/Odc/Outreach.antt =====
-- src/odc/odc-outreach.service.ts: the mails to the applicants of a program, sent one by one.
pub mod Rows
pub mod Queueing
pub mod Sending
pub mod Positions
pub mod Plan
pub mod Creation
pub mod Validity
pub mod Appending
pub mod Delivery
pub mod Campaign
pub mod Joining
pub mod Refinement
pub mod Sent
pub mod Recipients
pub mod Once
pub mod Blocked
pub mod Joined
pub mod Effects
pub mod Tests
