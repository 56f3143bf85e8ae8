-- ===== src/Tests/Readiness.antt =====
-- The theorems on readiness at a run with one endpoint more than the root's.
use grcache.Prelude.{◌+◌, ◌≡◌, refl, ◌&&◌, true, false, arith}
use grcache.Health.{State, new, add, swap, fetch_sub, send, Step, Reach}
use grcache.Health.Invariant.{blocking, root, ready-waits_for_root}

abbrev added : State
added = add true new

added_reached : Reach 1 added
added_reached = Reach.later Reach.start (Step.add_endpoint true)

ready-waits_for_root_example :
    (added.ready_blocks ≡ blocking added.can_indicate_ready + added.subtracting)
    × ((root added.can_indicate_ready && added.ready) ≡ false)
ready-waits_for_root_example = ready-waits_for_root (omega arith) added_reached

-- The root calls `ready`, and all of the call is done.
abbrev done : State
done = send (fetch_sub (swap 0 new))

done_reached : Reach 3 done
unfolding swap fetch_sub
done_reached =
    Reach.later
      (Reach.later (Reach.later Reach.start (Step.call_ready 0)) (Step.subtract (omega arith)))
      (Step.signal (omega arith))

none_blocks : blocking done.can_indicate_ready ≡ 0
unfolding swap fetch_sub send
none_blocks = refl

none_subtracts : done.subtracting ≡ 0
unfolding swap fetch_sub send
none_subtracts = refl

none_sends : done.sending ≡ 0
unfolding swap fetch_sub send
none_sends = refl

done_ready : done.ready ≡ true
unfolding send
done_ready = refl
