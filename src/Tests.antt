-- ===== src/Tests.antt =====
-- Runs of the operations on small inputs.
mod Concrete
mod PollerRuns
mod CountRuns
mod TimerRuns
mod TrimRuns
mod LockRuns
mod LoopRuns
mod ConditionRuns
mod HttpRuns
mod ServerRuns
mod DispatcherRuns
mod TaskRuns
mod NetRuns
mod ReadyRuns
mod IoRuns
mod PoolRuns
