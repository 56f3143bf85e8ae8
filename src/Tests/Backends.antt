-- ===== src/Tests/Backends.antt =====
-- A host that is discovered, and the theorems on discovery at it.
use mathlib.Core.Path.{subst}
use grcache.Prelude.{
  ℕ, ◌≡◌, refl, Bool, true, false, none, some, List, [], ◌∷◌, arith, is_some, nat_eq, text_eq,
}
use grcache.Prelude.Map.{lookup}
use grcache.Tests.{name_a}
use grcache.Dns
use grcache.Dns.{
  ready_of, State, Handle, Loop, HostPort, host_port_eq, Response, failed, addresses, advance,
  advance_loop, on_handle, clone, drop, backends_for_hostname, strong_count, upgraded, create,
  receive, is_modified, collect_backends, insert_backend, modify, is_live, looking, checking,
}
use grcache.Dns.Step.{Serves, call, release, accept, turn, Steps, here, next}
use grcache.Dns.Invariant.{Fed, Balanced}
use grcache.Dns.Runs.{Fed-Steps, is_some-advance}
use grcache.Dns.Sharing.{backends_for_hostname-Steps}
use grcache.Dns.Readiness.{Steps-ready_of}
use grcache.Dns.Stopping.{turns, lookup-Steps}
use grcache.Prelude.Map.{insert, remove}

abbrev pub Run : Type 0
Run = (s : State) × Steps Dns.new s

-- A host is asked for, its loop reads the map.
abbrev pub asked : Run
asked = ((backends_for_hostname name_a 80 Dns.new).0, next here (call name_a 80))

-- The response has one address twice, and another.
abbrev pub answer : Response
answer = addresses (2 ∷ 1 ∷ 2 ∷ [])

abbrev pub the_loop : Dns.Phase → Loop
the_loop phase = record { host_port = (name_a, 80); phase = phase }

abbrev pub found : List Dns.Backend
found = record { addr = 1; port = 80; weight = 1 } ∷ record { addr = 2; port = 80; weight = 1 } ∷ []

abbrev pub holding : ℕ → List Dns.Backend → Handle
holding strong backends = record {
  strong = strong;
  backends = backends;
  ready = false;
  load_balancer_round_robin = [];
  load_balancer_consistent = [];
}

abbrev pub with_loop : Dns.Phase → Handle → State
with_loop phase h = record {
  service_backends = ((name_a, 80), 0) ∷ [];
  commands = [];
  loops = (0, the_loop phase) ∷ [];
  handles = (0, h) ∷ [];
  next = 1;
}

sorted_test : collect_backends 80 (2 ∷ 1 ∷ 2 ∷ []) [] ≡ found
unfolding collect_backends insert_backend
sorted_test = refl

pub accepted_test : receive asked.0 ≡ with_loop Dns.starting (holding 1 [])
unfolding backends_for_hostname upgraded create receive lookup insert
accepted_test = refl

-- Its loop reads the map, looks the host up and updates the balancers.
abbrev pub looking_state : State
looking_state = with_loop (looking 0) (holding 1 [])

abbrev pub changed_state : State
changed_state = with_loop (Dns.changed 0) (holding 1 found)

pub starting_turn : advance failed 0 (with_loop Dns.starting (holding 1 [])) ≡ some looking_state
unfolding advance advance_loop lookup insert
starting_turn = refl

pub answer_turn : advance answer 0 looking_state ≡ some changed_state
unfolding advance advance_loop lookup insert is_modified collect_backends insert_backend modify
answer_turn = refl

abbrev pub updating_state : State
updating_state = with_loop (Dns.updating 0) (holding 2 found)

abbrev pub balanced : Bool → Handle
balanced ready = record {
  strong = 1;
  backends = found;
  ready = ready;
  load_balancer_round_robin = found;
  load_balancer_consistent = found;
}

pub upgrade_turn : advance failed 0 changed_state ≡ some updating_state
unfolding advance advance_loop lookup insert modify strong_count
upgrade_turn = refl

pub update_turn : advance failed 0 updating_state ≡ some (with_loop (checking 0) (balanced false))
unfolding advance advance_loop lookup insert modify
update_turn = refl

pub ready_turn :
    advance failed 0 (with_loop (checking 0) (balanced false))
    ≡ some (with_loop (looking 0) (balanced true))
unfolding advance advance_loop lookup insert modify strong_count
ready_turn = refl

changed-Steps : Steps Dns.new changed_state
changed-Steps =
    next
      (next (subst (Steps Dns.new) accepted_test (next asked.1 accept))
        (turn failed 0 starting_turn))
      (turn answer 0 answer_turn)

Fed-Steps_example :
    ((host_port : HostPort) × (lookup host_port changed_state.service_backends ≡ some 0)
      × Fed 0 host_port changed_state)
    × Balanced 0 (holding 1 found) changed_state
unfolding lookup
Fed-Steps_example = Fed-Steps changed-Steps 0 (holding 1 found) refl (omega arith)

is_some-advance_example : is_some (advance failed 0 changed_state) ≡ true
is_some-advance_example = is_some-advance changed-Steps failed 0

-- The loop has updated the balancers while another caller shares the handle.
backends_for_hostname-Steps_example :
    backends_for_hostname name_a 80 changed_state ≡ (on_handle 0 clone changed_state, 0)
unfolding backends_for_hostname upgraded create receive lookup insert strong_count
backends_for_hostname-Steps_example =
    backends_for_hostname-Steps {s = Dns.new} {t = changed_state} name_a 80 here
      (next
        (next (subst (Steps asked.0) accepted_test (next here accept))
          (turn failed 0 starting_turn))
        (turn answer 0 answer_turn))
      refl

-- The owner drops the handle, and the loop stops after three turns.
abbrev dead_state : Dns.Phase → State
dead_state phase = with_loop phase (holding 0 found)

abbrev stopped_state : State
stopped_state = record (dead_state (checking 0)) { loops = [] }

dropped_test : on_handle 0 drop changed_state ≡ dead_state (Dns.changed 0)
unfolding modify lookup insert
dropped_test = refl

live_test : is_live 0 changed_state ≡ true
unfolding strong_count lookup
live_test = refl

dead-Steps : Steps Dns.new (dead_state (Dns.changed 0))
dead-Steps = subst (Steps Dns.new) dropped_test (next changed-Steps (release 0 live_test))

give_up_turn : advance failed 0 (dead_state (Dns.changed 0)) ≡ some (dead_state (checking 0))
unfolding advance advance_loop lookup insert strong_count
give_up_turn = refl

stop_turn : advance failed 0 (dead_state (checking 0)) ≡ some stopped_state
unfolding advance advance_loop lookup remove strong_count
stop_turn = refl

idle_turn : advance failed 0 stopped_state ≡ some stopped_state
unfolding advance lookup
idle_turn = refl

lookup-Steps_example : lookup 0 stopped_state.loops ≡ none
unfolding lookup turns
lookup-Steps_example =
    lookup-Steps 0 0 (the_loop (Dns.changed 0)) (holding 0 found) dead-Steps refl refl refl refl
      (next (next (next here (turn failed 0 give_up_turn)) (turn failed 0 stop_turn))
        (turn failed 0 idle_turn))
      (omega arith)

Steps-ready_of_example : (t : State) × Serves changed_state t × (ready_of 0 t ≡ true)
unfolding lookup
Steps-ready_of_example = Steps-ready_of 0 (holding 1 found) changed-Steps refl (omega arith)
