-- ===== src/Tenant.antt =====
-- src/shm/shared_memory_tenant.c: the tenants, their quotas and usage, and the processes bound to
-- them. `State` has the object and its lock, `Admin` the life cycle of a tenant, `Binding` the
-- table of processes, `Usage` the accounting of resources.
pub mod Race
pub mod State
pub mod Admin
pub mod Binding
pub mod Usage
pub mod History
mod Tests
