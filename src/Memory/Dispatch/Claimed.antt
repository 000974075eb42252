-- ===== src/Memory/Dispatch/Claimed.antt =====
-- The rows that `dequeue_workflows` of src/memory.rs claims, against the rows before and after.
use durare.Prelude.{string_eq}
use durare.Map
use durare.Map.{Map, Unique}
use durare.Host.{Host}
