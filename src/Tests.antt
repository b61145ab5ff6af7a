-- ===== src/Tests.antt =====
-- Inputs of the program, what the model computes on them, and each theorem at such an input.
mod Brokers
mod Pipelines
mod Data
mod SenderRounds
mod HookRuns
mod Payloads
mod Filters
mod Queue
mod Config
mod Pods
mod Pusher
mod Running
mod Metering
mod Starting
