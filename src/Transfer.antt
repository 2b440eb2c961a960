-- ===== src/Transfer.antt =====
-- The messages of multipart transfers of `pldm-common/src/message/firmware_update`, of
-- `get_package_data.rs` and `query_downstream.rs`: the requests (`Requests`), the responses that end
-- in a portion (`Portion`, `Round`), and that of GetPackageData, which copies its portion (`PackageData`).
pub mod Requests
pub mod Portion
pub mod Round
pub mod PackageData
