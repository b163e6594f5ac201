-- ===== src/Broker.antt =====
-- The lock of the broker: src/BrokerLock/BrokerLock.c.
use taste_samx_rtems_runtime.Common.{List, ℕ, Bool, ◌∷◌, Option, if◌then◌else◌, some, none}

-- What a thread asks of the semaphore, the newest first: that thread has obtained it, or released it.
pub data LockEvent : Type 0 where
  obtained released : ℕ → LockEvent

-- `Broker_acquire_lock` of a thread, where RTEMS answers after a history whether the call succeeded.
-- `none` is a call that does not return with success: a failed assertion, or a thread that waits.
unfoldable pub acquire_lock :
    (List LockEvent → ℕ → Bool) → ℕ → List LockEvent → Option (List LockEvent)
acquire_lock succeeds thread h = if succeeds h thread then some (obtained thread ∷ h) else none

-- `Broker_release_lock`, whose result is not read.
unfoldable pub release_lock : ℕ → List LockEvent → List LockEvent
release_lock thread h = released thread ∷ h
