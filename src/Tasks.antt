-- ===== src/Tasks.antt =====
-- `idempotent_task` of api/tasks.py: a task is executed once for its arguments.
pub mod Dedup
use django_boilerplate.Prelude.{
  ℕ, String, ◌+++◌, Bool, true, false, Option, none, some, take_text, Instant, seconds,
}
use django_boilerplate.Crypto.{Digests}
use django_boilerplate.Cache.{Cache}

-- The entry of a task.
pub data Entry : Type 0 where
  processing : (task_id : String) → Entry
  completed : (task_id result : String) → Entry

-- How a call of the wrapped function ends: with a result, with an exception, or not at all since the
-- worker is lost.
pub data Ending : Type 0 where
  result : String → Ending
  failure : Ending
  worker_lost : Ending

pub data Reply : Type 0 where
  deduplicated : (task_id : String) → Reply
  executed : Ending → Reply

-- `task_dedup_key`; `payload` is the JSON of the task's name and arguments.
unfoldable pub task_dedup_key : Digests → (payload : String) → String
task_dedup_key d payload = "task_dedup:" +++ d.sha256 payload

module _ (c : Cache Entry) (ttl : ℕ) where
  finish : Ending → (key task_id : String) → Instant → c.State → c.State
  finish (result text) key task_id now s =
      c.set key (completed task_id (take_text 200 text)) (seconds ttl) now s
  finish failure key task_id now s = c.delete key s
  finish worker_lost key task_id now s = s

  execute :
      Option Entry
      → Ending
      → (key task_id : String) (start end : Instant) → c.State
      → Reply × c.State
  execute (some entry) ending key task_id start end s = (deduplicated task_id, s)
  execute none ending key task_id start end s = (
    executed ending,
    finish ending key task_id end (c.set key (processing task_id) (seconds ttl) start s),
  )

  -- `wrapper`, for a call that would start and end at two instants and end in some way.
  unfoldable pub run :
      Ending → (key task_id : String) (start end : Instant) → c.State → Reply × c.State
  unfolding execute finish
  run ending key task_id start end s = execute (c.get key start s) ending key task_id start end s
