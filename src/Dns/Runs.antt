-- ===== src/Dns/Runs.antt =====
-- The invariant of grcache-proxy/src/discovery/dns.rs in every state that a run leads to.
use grcache.Prelude.{
  ℕ, ◌<◌, ◌≡◌, refl, true, some, arith, Option-cases, Bool-cases, inl, inr, is_some, [], nat_eq,
}
use grcache.Prelude.Map.{lookup}
use grcache.Dns.{
  Handle, Phase, starting, looking, changed, updating, checking, State, new, HostPort, host_port_eq,
  Response, failed, addresses, advance_loop, advance, is_modified, collect_backends, strong_count,
}
use grcache.Dns.Step.{Step, call, copy, release, accept, turn, Steps, here, next}
use grcache.Dns.Invariant.{Fed, Balanced, Inv}
use grcache.Dns.Invariant.Moves.{
  Inv-new, Inv-receive, Inv-clone, Inv-drop, Inv-backends_for_hostname,
}
use grcache.Dns.Invariant.Turn.{Inv-advance}

pub Inv-Step : {s t : State} → Inv s → Step s t → Inv t
Inv-Step inv (call hostname port) = Inv-backends_for_hostname inv hostname port
Inv-Step inv (copy id live) = Inv-clone inv id live
Inv-Step inv (release id live) = Inv-drop inv id
Inv-Step inv accept = Inv-receive inv
Inv-Step inv (turn r sender e) = Inv-advance inv r sender e

pub Inv-Steps : {s t : State} → Inv s → Steps s t → Inv t
Inv-Steps inv here = inv
Inv-Steps inv (next run step) = Inv-Step (Inv-Steps inv run) step

-- In every state that a run leads to from the empty service, a handle with an owner is the one that
-- the map has for some host, and either the command for it and that host waits in the queue and it has
-- no loop, or it has a loop for that host, which is about to read the map or whose weak reference is to
-- that same handle. And either the last updates of both load balancers have read the backends that were
-- sent last, or the loop is on its way to update those of that handle.
pub Fed-Steps :
    {s : State}
    → Steps new s
    → (id : ℕ) (h : Handle) → lookup id s.handles ≡ some h
    → 0 < h.strong
    → ((host_port : HostPort) × (lookup host_port s.service_backends ≡ some id)
        × Fed id host_port s)
      × Balanced id h s
unfolding strong_count
Fed-Steps {s = s} run id h e pos =
    let inv = Inv-Steps Inv-new run in (inv.fed id (ground arith), inv.balanced id h e pos)

advance_loop-known :
    (r : Response) (sender : ℕ) (host_port : HostPort) (phase : Phase) (s : State)
    → is_some (lookup host_port s.service_backends) ≡ true
    → is_some (advance_loop r sender host_port phase s) ≡ true
unfolding advance_loop
advance_loop-known r sender host_port starting s known = ground arith
advance_loop-known failed sender host_port (looking id) s known = ground arith
advance_loop-known (addresses addrs) sender host_port (looking id) s known =
    elim (Bool-cases (is_modified sender (collect_backends host_port.1 addrs []) s.handles)) [
      | inl e ↦ rw (e, advance_loop) refl
      | inr e ↦ rw (e, advance_loop) refl
    ]
advance_loop-known r sender host_port (changed id) s known = ground arith
advance_loop-known r sender host_port (updating id) s known = refl
advance_loop-known r sender host_port (checking id) s known = ground arith

-- In every state that a run leads to from the empty service, no loop panics, whatever is looked up:
-- the host of a loop that starts is in the map.
pub is_some-advance :
    {s : State} → Steps new s → (r : Response) (sender : ℕ) → is_some (advance r sender s) ≡ true
unfolding advance
is_some-advance {s = s} run r sender = elim (Option-cases (lookup sender s.loops)) [
  | inl n ↦ rw (n, advance) refl
  | inr (l, e) ↦
      rw (e, advance)
        (advance_loop-known r sender l.host_port l.phase s
          ((Inv-Steps Inv-new run).loops sender l e).1)
]
