-- ===== src/Limits.antt =====
-- What keeps the bot from overloading the language model: the semaphore of
-- src/services/llm-semaphore.ts, the lock of src/services/group-lock.ts and the circuit breaker of
-- src/services/gateway-proxy.ts.
pub mod Semaphore
pub mod GroupLock
pub mod Breaker
