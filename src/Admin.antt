-- ===== src/Admin.antt =====
-- apps/api/src/modules/workspace-admin/service.ts: the members, the invites and the keys of a workspace.
pub mod Keys
pub mod KeyUse
pub mod KeyExpiry
pub mod KeyEnd
pub mod Members
pub mod Changes
pub mod Invites
pub mod Suspension
pub mod Rotation
