-- ===== src/Pods.antt =====
-- internal/pods: the pods of the cluster, and events for containers killed for want of memory.
pub mod Oom
pub mod Informer
