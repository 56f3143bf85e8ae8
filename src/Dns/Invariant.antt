-- ===== src/Dns/Invariant.antt =====
-- What holds of the service discovery in grcache-proxy/src/discovery/dns.rs at any time.
pub mod Handles
pub mod Loops
pub mod Create
pub mod Moves
pub mod Phases
pub mod Turn
use mathlib.Core.Path.{subst}
use Prim.Native.Nat.{◌≤◌}
use grcache.Prelude.{
  ℕ, ◌+◌, ◌<◌, ◌≡◌, ◌≢◌, refl, sym, ap, ◌∙◌, ◌⊎◌, Bool, true, false, not, Option, none, some, List,
  [], ◌∷◌, ◌++◌, ◌==◌, nat_eq, if◌then◌else◌, ltb, nat_beq, nat_beq_iff, arith, Option-cases,
  Bool-cases, inl, inr, eq_cases, is_some, eq_iff,
}
use grcache.Prelude.Map.{Map, lookup, insert, remove, lookup-insert, lookup-remove}
use grcache.Dns.{
  Handle, Phase, starting, looking, changed, updating, checking, Loop, State, modify, strong_count,
  is_live, on_handle, at_phase, stop, HostPort, host_port_eq,
}
use grcache.Dns.Cells.{lookup-modify, modify-eq-some, is_live-eq_true, is_live_of_lookup}
use grcache.Dns.Queue.{IsQueue, IsQueue-insert_loop, IsQueue-remove_loop, absent-IsQueue}

-- The handle that the weak reference of a loop is to, once it has been read.
abbrev pub weak : Phase → Option ℕ
weak starting = none
weak (looking id) = some id
weak (changed id) = some id
weak (updating id) = some id
weak (checking id) = some id

-- The loop has yet to update the load balancers of the handle.
abbrev pub is_pending : ℕ → Phase → Bool
is_pending id starting = false
is_pending id (looking j) = false
is_pending id (changed j) = nat_beq j id
is_pending id (updating j) = nat_beq j id
is_pending id (checking j) = false

-- The loop is about to read the map, or its weak reference is to the handle that it feeds.
abbrev pub Attends : ℕ → Phase → Type 0
Attends id phase = (phase ≡ starting) ⊎ (weak phase ≡ some id)

-- The handle waits for its loop, or has one.
abbrev pub Fed : ℕ → HostPort → State → Type 0
Fed id host_port s =
    ((lookup id s.loops ≡ none) × (lookup id s.commands ≡ some host_port))
    ⊎ ((l : Loop) × (lookup id s.loops ≡ some l) × (l.host_port ≡ host_port) × Attends id l.phase)

-- The load balancers hold the backends that were sent last.
abbrev pub IsCurrent : Handle → Type 0
IsCurrent h = (h.load_balancer_round_robin ≡ h.backends) × (h.load_balancer_consistent ≡ h.backends)

-- They do, or the loop of the handle is about to see to it.
abbrev pub Balanced : ℕ → Handle → State → Type 0
Balanced id h s =
    IsCurrent h ⊎ ((l : Loop) × (lookup id s.loops ≡ some l) × (is_pending id l.phase ≡ true))

pub record Inv (s : State) : Type 0 where
  pub fresh : (id : ℕ) (h : Handle) → lookup id s.handles ≡ some h → id < s.next
  pub queue : IsQueue s.next s.service_backends s.loops s.commands
  pub loops :
      (id : ℕ) (l : Loop)
      → lookup id s.loops ≡ some l
      → (id < s.next) × (is_some (lookup l.host_port s.service_backends) ≡ true)
  pub fed :
      (id : ℕ)
      → is_live id s ≡ true
      → (host_port : HostPort) × (lookup host_port s.service_backends ≡ some id)
        × Fed id host_port s
  pub balanced :
      (id : ℕ) (h : Handle) → lookup id s.handles ≡ some h → 0 < h.strong → Balanced id h s
