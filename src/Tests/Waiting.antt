-- ===== src/Tests/Waiting.antt =====
-- A caller that sleeps before it is notified, and one that looks when all is done.
use serialrpc.Base.{◌≡◌, refl}
use serialrpc.Client.Waiter.{
  notifying, storing_two, notified, loaded, waiting, asleep, returned, Waiter, fresh_waiter,
  notify_step, notify_from, wait_step, wait_from, notifies, waits, Reach, start, later, run,
}
use serialrpc.Client.Waiter.Waking.{wait_returns_last, wait_returns}

abbrev done : Waiter
done = record { state = 2; notifier = notified; waiter = returned }

done-Reach : Reach done
unfolding notify_step notify_from wait_step wait_from
done-Reach =
    later
      (later
        (later
          (later
            (later start (notifies (record fresh_waiter { state = 1; notifier = notifying }) refl))
            (notifies (record fresh_waiter { state = 1; notifier = storing_two }) refl))
          (notifies (record fresh_waiter { state = 2; notifier = notified }) refl))
        (waits (record done { waiter = loaded 2 }) refl))
      (waits done refl)

wait_returns_last_example : done.notifier ≡ notified
wait_returns_last_example = wait_returns_last done done-Reach refl

abbrev sleeping : Waiter
sleeping = record fresh_waiter { waiter = asleep }

sleeping-Reach : Reach sleeping
unfolding wait_step wait_from
sleeping-Reach =
    later
      (later (later start (waits (record fresh_waiter { waiter = loaded 0 }) refl))
        (waits (record fresh_waiter { waiter = waiting }) refl))
      (waits sleeping refl)

wait_returns_example : (run wait_step 4 (run notify_step 3 sleeping)).waiter ≡ returned
wait_returns_example = wait_returns sleeping sleeping-Reach
