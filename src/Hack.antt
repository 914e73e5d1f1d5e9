-- ===== src/Hack.antt =====
-- The scripts of the build that handle the packages of addons (hack/addons).
pub mod Sync
pub mod Terraform
pub mod UiSchema
mod Examples
