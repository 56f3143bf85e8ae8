-- ===== src/Dns.antt =====
-- grcache-proxy/src/discovery/dns.rs and mod.rs: the handles to the backends of a host, and the loops
-- that look them up. Handles are numbered in the order of their creation, and a loop goes by the
-- number of the handle that it feeds. What a lookup returns is the resolver's, and an argument.
pub mod Step
pub mod Cells
pub mod Queue
pub mod Invariant
pub mod Owners
pub mod Runs
pub mod Kept
pub mod Sharing
pub mod Countdown
pub mod Stopping
pub mod Turns
pub mod Readiness
use grcache.Prelude.{
  ℕ, ◌+◌, ◌-◌, ◌≡◌, ◌↔◌, Bool, true, false, not, ◌&&◌, ◌||◌, Option, none, some, List, [], ◌∷◌,
  ◌++◌, Text, text_eq, Eq, ◌==◌, nat_eq, pair_eq, list_eq, if◌then◌else◌, ltb, nat_beq, nat_beq_iff,
  arith, eq_iff,
}
use grcache.Prelude.Map.{Map, lookup, insert, remove}
use grcache.Store.{Discovery}

-- The address, as a number, and the port of a `SocketAddr::Inet`, with the weight.
pub record Backend : Type 0 where
  pub addr : ℕ
  pub port : ℕ
  pub weight : ℕ

abbrev pub backend_beq : Backend → Backend → Bool
backend_beq a b = nat_beq a.addr b.addr && nat_beq a.port b.port && nat_beq a.weight b.weight

pub backend_beq_iff : (a b : Backend) → (backend_beq a b ≡ true) ↔ (a ≡ b)
backend_beq_iff a b = ground arith

instance abbrev pub backend_eq : Eq Backend
backend_eq = record { beq = backend_beq; beq_iff = backend_beq_iff }

-- The order of a `BTreeSet<Backend>`, on backends of one weight.
abbrev pub backend_lt : Backend → Backend → Bool
backend_lt a b = ltb a.addr b.addr || nat_beq a.addr b.addr && ltb a.port b.port

-- `BTreeSet::insert`
unfoldable pub insert_backend : Backend → List Backend → List Backend
insert_backend b [] = b ∷ []
insert_backend b (x ∷ xs) =
    let rest = insert_backend b xs in
    if b == x then x ∷ xs else if backend_lt b x then b ∷ x ∷ xs else x ∷ rest

-- The loop over the addresses of a response.
unfoldable pub collect_backends : ℕ → List ℕ → List Backend → List Backend
collect_backends port [] backends = backends
collect_backends port (addr ∷ addrs) backends =
    collect_backends port addrs
      (insert_backend (record { addr = addr; port = port; weight = 1 }) backends)

abbrev pub HostPort : Type 0
HostPort = Text × ℕ

instance abbrev pub host_port_eq : Eq HostPort
host_port_eq = pair_eq

-- `ServiceBackendsHandle`, with the count of its owners. The values of the watches are those that
-- their senders have sent; of each load balancer this is what its last update has discovered.
pub record Handle : Type 0 where
  pub strong : ℕ
  pub backends : List Backend
  pub ready : Bool
  pub load_balancer_round_robin : List Backend
  pub load_balancer_consistent : List Backend

-- A new handle, with one owner.
abbrev pub new_handle : Handle
new_handle = record {
  strong = 1;
  backends = [];
  ready = false;
  load_balancer_round_robin = [];
  load_balancer_consistent = [];
}

-- Where a loop stands, with the handle that its weak reference is to.
pub data Phase : Type 0 where
  starting : Phase
  looking : ℕ → Phase
  changed : ℕ → Phase
  updating : ℕ → Phase
  checking : ℕ → Phase

pub record Loop : Type 0 where
  pub host_port : HostPort
  pub phase : Phase

-- The map of `HandleState`, the queue of `StartDiscoveryLoop` commands and the loops, each by the
-- handle that it feeds, and the handles, of which `next` is the next to be created.
pub record State : Type 0 where
  pub service_backends : Map HostPort ℕ
  pub commands : List (ℕ × HostPort)
  pub loops : Map ℕ Loop
  pub handles : Map ℕ Handle
  pub next : ℕ

-- `Handle::new`
abbrev pub new : State
new = record { service_backends = []; commands = []; loops = []; handles = []; next = 0 }

-- `strong_count`
unfoldable pub strong_count : ℕ → State → ℕ
strong_count id s = elim (lookup id s.handles) [ some h ↦ h.strong | none ↦ 0 ]

-- The value of the `ready` watch of a handle.
unfoldable pub ready_of : ℕ → State → Bool
ready_of id s = elim (lookup id s.handles) [ some h ↦ h.ready | none ↦ false ]

abbrev pub is_live : ℕ → State → Bool
is_live id s = ltb 0 (strong_count id s)

-- A change of one handle.
unfoldable pub modify : ℕ → (Handle → Handle) → Map ℕ Handle → Map ℕ Handle
modify id f handles = elim (lookup id handles) [ some h ↦ insert id (f h) handles | none ↦ handles ]

abbrev pub on_handle : ℕ → (Handle → Handle) → State → State
on_handle id f s = record s { handles = modify id f s.handles }

-- `Arc::clone`, or an `upgrade` that succeeds, and the drop of an owner
abbrev pub clone : Handle → Handle
clone h = record h { strong = h.strong + 1 }

abbrev pub drop : Handle → Handle
drop h = record h { strong = h.strong - 1 }

-- The weak reference of the map, if it can be upgraded.
unfoldable pub upgraded : HostPort → State → Option ℕ
upgraded host_port s = elim (lookup host_port s.service_backends) [
  | some id ↦ if is_live id s then some id else none
  | none ↦ none
]

-- The `else` of `backends_for_hostname`
unfoldable pub create : HostPort → State → State
create host_port s = record s {
  service_backends = insert host_port s.next s.service_backends;
  commands = s.commands ++ (s.next, host_port) ∷ [];
  handles = insert s.next new_handle s.handles;
  next = s.next + 1;
}

unfoldable pub backends_for_hostname : Text → ℕ → State → State × ℕ
backends_for_hostname hostname port s = elim (upgraded (hostname, port) s) [
  | some id ↦ (on_handle id clone s, id)
  | none ↦ (create (hostname, port) s, s.next)
]

-- A round of `Service::start`: the first command becomes a loop.
unfoldable pub receive : State → State
receive s = elim s.commands [
  | [] ↦ s
  | (sender, host_port) ∷ rest ↦ record s {
    commands = rest;
    loops = insert sender (record { host_port = host_port; phase = starting }) s.loops;
  }
]

-- The result of `ipv4_lookup`
pub data Response : Type 0 where
  failed : Response
  addresses : List ℕ → Response

abbrev pub at_phase : ℕ → HostPort → Phase → State → State
at_phase sender host_port phase s = record s {
  loops = insert sender (record { host_port = host_port; phase = phase }) s.loops;
}

-- The `break`
abbrev pub stop : ℕ → State → State
stop sender s = record s { loops = remove sender s.loops }

abbrev pub set_backends : List Backend → Handle → Handle
set_backends backends h = record h { backends = backends }

-- The test of `send_if_modified`
unfoldable pub is_modified : ℕ → List Backend → Map ℕ Handle → Bool
is_modified sender backends handles = elim (lookup sender handles) [
  | some h ↦ not (h.backends == backends)
  | none ↦ false
]

-- `WatchServiceDiscovery::discover`
abbrev pub discover : Handle → List Backend
discover h = h.backends

-- `update` of both load balancers, each of which calls `discover`
abbrev pub update : Handle → Handle
update h = record h {
  load_balancer_round_robin = discover h;
  load_balancer_consistent = discover h;
}

-- `ready_send.send(true)`
abbrev pub set_ready : Handle → Handle
set_ready h = record h { ready = true }

-- What a loop of `dns_discovery_loop` does next; `none` is the panic of the `unwrap` on the map. The
-- two updates and the drop of the upgraded handle after them are one step: until the loop goes on, no one
-- else sends backends to the handle.
unfoldable pub advance_loop : Response → ℕ → HostPort → Phase → State → Option State
advance_loop r sender host_port starting s = elim (lookup host_port s.service_backends) [
  | some id ↦ some (at_phase sender host_port (looking id) s)
  | none ↦ none
]
advance_loop failed sender host_port (looking id) s =
    if nat_beq (strong_count id s) 0 then some (stop sender s) else some s
advance_loop (addresses addrs) sender host_port (looking id) s =
    let backends = collect_backends host_port.1 addrs [] in
    if is_modified sender backends s.handles
    then some (at_phase sender host_port (changed id) (on_handle sender (set_backends backends) s))
    else some (at_phase sender host_port (checking id) s)
advance_loop r sender host_port (changed id) s =
    if is_live id s
    then some (at_phase sender host_port (updating id) (on_handle id clone s))
    else some (at_phase sender host_port (checking id) s)
advance_loop r sender host_port (updating id) s =
    some (at_phase sender host_port (checking id) (on_handle id drop (on_handle id update s)))
advance_loop r sender host_port (checking id) s =
    if nat_beq (strong_count id s) 0
    then some (stop sender s)
    else some (at_phase sender host_port (looking id) (on_handle sender set_ready s))

unfoldable pub advance : Response → ℕ → State → Option State
advance r sender s = elim (lookup sender s.loops) [
  | some l ↦ advance_loop r sender l.host_port l.phase s
  | none ↦ some s
]

-- The service discovery of the loader.
abbrev pub dns_discovery : Discovery
dns_discovery = record { Dns = State; Handle = ℕ; backends_for_hostname = backends_for_hostname }
