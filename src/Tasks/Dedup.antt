-- ===== src/Tasks/Dedup.antt =====
-- The second delivery of a task, api/tasks.py.
use django_boilerplate.Prelude.{
  ◌≡◌, ap, ◌∙◌, ℕ, ◌+◌, ◌<◌, String, none, some, Instant, seconds, take_text,
}
use django_boilerplate.Cache.{Cache}
use django_boilerplate.Tasks.{
  Entry, processing, completed, Ending, result, failure, worker_lost, deduplicated, executed, run,
  execute, finish,
}

module _ (c : Cache Entry) (ttl : ℕ) (key : String) (s : c.State) where
  run-new :
      (e : Ending) (id : String) (start end : Instant)
      → c.get key start s ≡ none
      → run c ttl e key id start end s
        ≡ (executed e, finish c ttl e key id end (c.set key (processing id) (seconds ttl) start s))
  unfolding run execute
  run-new e id start end new = ap (λ o. execute c ttl o e key id start end s) new

  reply-seen :
      (x : Entry) (e : Ending) (id : String) (start end : Instant)
      → c.get key start s ≡ some x
      → run c ttl e key id start end s ≡ (deduplicated id, s)
  unfolding run execute
  reply-seen x e id start end seen = ap (λ o. execute c ttl o e key id start end s) seen

-- A task without an entry is executed. If it ended with a result, the same task is skipped until the
-- lifetime of its entry has passed since the end; if it failed, the next delivery is executed.
pub second_delivery :
    (c : Cache Entry) (ttl : ℕ) (key text id id' : String) (e : Ending)
    (start end later later_end : Instant) (s : c.State)
    → c.get key start s ≡ none
    → ((run c ttl (result text) key id start end s).0 ≡ executed (result text))
      × (later < end + seconds ttl
          → let after = (run c ttl (result text) key id start end s).1 in
            run c ttl e key id' later later_end after ≡ (deduplicated id', after))
      × (let after = (run c ttl failure key id start end s).1 in
          (run c ttl e key id' later later_end after).0 ≡ executed e)
unfolding finish
second_delivery c ttl key text id id' e start end later later_end s new =
    let good = run-new c ttl key s (result text) id start end new in
    let bad = run-new c ttl key s failure id start end new in
    (
      ap (λ x. x.0) good,
      λ live.
          reply-seen c ttl key (run c ttl (result text) key id start end s).1
            (completed id (take_text 200 text)) e id' later later_end
            (ap (λ x. c.get key later x.1) good
              ∙ c.get-set_live key _ (seconds ttl) end later _ live),
      ap (λ x. x.0)
          (run-new c ttl key (run c ttl failure key id start end s).1 e id' later later_end
            (ap (λ x. c.get key later x.1) bad ∙ c.get-delete_self key later _)),
    )

-- A task whose worker is lost is not executed when it is delivered again before the lifetime of its
-- entry has passed: the entry says that it is being processed.
pub lost_task_skipped :
    (c : Cache Entry) (ttl : ℕ) (key id id' : String) (e : Ending)
    (start end later later_end : Instant) (s : c.State)
    → c.get key start s ≡ none
    → later < start + seconds ttl
    → let after = (run c ttl worker_lost key id start end s).1 in
      run c ttl e key id' later later_end after ≡ (deduplicated id', after)
unfolding finish
lost_task_skipped c ttl key id id' e start end later later_end s new live =
    let lost = run-new c ttl key s worker_lost id start end new in
    reply-seen c ttl key (run c ttl worker_lost key id start end s).1 (processing id) e id' later
      later_end
      (ap (λ x. c.get key later x.1) lost ∙ c.get-set_live key _ (seconds ttl) start later _ live)
