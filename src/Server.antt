-- ===== src/Server.antt =====
-- server/: the MMS server of a data model. The child Select is server/select.go,
-- SettingGroups is server/settinggroup.go.
pub mod Select
pub mod SettingGroups
pub mod Reporting
pub mod Control
