-- ===== src/Tests.antt =====
-- Runs of the model on a small shop, and the theorems applied to it.
mod Data
mod StoreRuns
mod MachineRuns
mod TokenRuns
mod FlcodeRuns
mod MiniappRuns
mod ProductRuns
mod CheckoutRuns
mod PhoneRuns
mod HomeRuns
mod AdminRuns
mod RepositoryRuns
mod RouteRuns
mod WelfareRuns
