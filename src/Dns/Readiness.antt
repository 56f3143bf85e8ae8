-- ===== src/Dns/Readiness.antt =====
-- How a handle of grcache-proxy/src/discovery/dns.rs becomes ready.
use mathlib.Core.Option.{some-injective}
use mathlib.Core.Path.{subst}
use grcache.Prelude.{
  ℕ, ◌<◌, ◌≡◌, refl, ap, ◌∙◌, true, Option, none, some, List, [], ◌∷◌, arith, Bool-cases, inl, inr,
  nat_eq, nat_beq,
}
use grcache.Prelude.Map.{lookup, insert, lookup-insert}
use grcache.Dns.{
  Handle, Phase, starting, looking, changed, updating, checking, Loop, State, HostPort,
  host_port_eq, strong_count, new, ready_of, receive,
}
use grcache.Dns.Cells.{is_live_of_lookup}
use grcache.Dns.Step.{Steps, Serves, idle, accepted}
use grcache.Dns.Invariant.{Attends, Inv}
use grcache.Dns.Invariant.Moves.{Inv-new}
use grcache.Dns.Runs.{Inv-Steps}
use grcache.Dns.Turns.{
  At, Readies, from_checking, from_updating, from_changed, from_looking, from_starting,
}

-- The references to its handle that a loop holds itself.
abbrev pub own : Phase → ℕ
own (updating id) = 1
own starting = 0
own (looking id) = 0
own (changed id) = 0
own (checking id) = 0

module _ (id : ℕ) (host_port : HostPort) (addrs : List ℕ) where
  -- The weak reference is to the handle, or about to be.
  from_any :
      (phase : Phase) (s : State) (h : Handle)
      → At id host_port addrs phase h s
      → lookup host_port s.service_backends ≡ some id
      → Attends id phase
      → own phase < h.strong
      → Readies id host_port addrs s
  from_any starting s h at_s mapped att pos =
      from_starting id host_port addrs s h idle at_s mapped pos
  from_any (looking j) s h at_s mapped (inl begins) pos = absurd (cc)
  from_any (changed j) s h at_s mapped (inl begins) pos = absurd (cc)
  from_any (updating j) s h at_s mapped (inl begins) pos = absurd (cc)
  from_any (checking j) s h at_s mapped (inl begins) pos = absurd (cc)
  from_any (looking j) s h at_s mapped (inr watches) pos =
      from_looking id host_port addrs s h idle
        (subst (λ i. At id host_port addrs (looking i) h s) (some-injective _ _ watches) at_s) pos
  from_any (changed j) s h at_s mapped (inr watches) pos =
      from_changed id host_port addrs s h idle
        (subst (λ i. At id host_port addrs (changed i) h s) (some-injective _ _ watches) at_s) pos
  from_any (updating j) s h at_s mapped (inr watches) pos =
      from_updating id host_port addrs s h idle
        (subst (λ i. At id host_port addrs (updating i) h s) (some-injective _ _ watches) at_s) pos
  from_any (checking j) s h at_s mapped (inr watches) pos =
      from_checking id host_port addrs s h idle
        (subst (λ i. At id host_port addrs (checking i) h s) (some-injective _ _ watches) at_s) pos

  -- The command for the handle waits: it is accepted after those before it.
  from_waiting :
      {s₀ : State} (l : List (ℕ × HostPort)) (s : State) (h : Handle)
      → Serves s₀ s
      → s.commands ≡ l
      → lookup id l ≡ some host_port
      → lookup id s.handles ≡ some h
      → lookup host_port s.service_backends ≡ some id
      → 0 < h.strong
      → Readies id host_port addrs s₀
  unfolding receive lookup
  from_waiting [] s h run c waits held mapped pos = absurd (ground arith)
  from_waiting ((sender, hp) ∷ rest) s h run c waits held mapped pos =
      let s' : State = record s {
        commands = rest;
        loops = insert sender (record { host_port = hp; phase = starting }) s.loops;
      } in
      let e : receive s ≡ s' = simp (c, receive) refl in
      let run' = subst (Serves _) e (accepted run) in
      elim (Bool-cases (nat_beq sender id)) [
        | inr other ↦ from_waiting rest s' h run' refl (rw (other) at waits) held mapped pos
        | inl same ↦
            let hosts : hp ≡ host_port = some-injective _ _ (rw (same) at waits) in
            from_starting id host_port addrs s' h run'
              (record {
                running = ground (
                  arith,
                  hosts,
                  lookup-insert sender id (record { host_port = hp; phase = starting }) s.loops,
                );
                held = held;
              })
              mapped pos
      ]

-- The references that the loop of a handle holds, if it has one.
abbrev pub own_of : Option Loop → ℕ
own_of none = 0
own_of (some l) = own l.phase

pub Inv-Readies :
    {s : State} (id : ℕ) (h : Handle)
    → Inv s
    → lookup id s.handles ≡ some h
    → own_of (lookup id s.loops) < h.strong
    → (t : State) × Serves s t × (ready_of id t ≡ true)
unfolding strong_count
Inv-Readies {s = s} id h inv held owned =
    let (host_port, mapped, fed) =
      inv.fed id (is_live_of_lookup id s h held (omega (arith, owned))) in
    elim fed [
      | inl (unstarted, waits) ↦
          from_waiting id host_port [] s.commands s h idle refl waits held mapped
            (omega (arith, owned))
      | inr (l, running, hosts, att) ↦
          from_any id host_port [] l.phase s h
            (record {
              running =
                  running
                  ∙ ap (λ (x : HostPort). some (record { host_port = x; phase = l.phase })) hosts;
              held = held;
            })
            mapped att (subst (λ o. own_of o < h.strong) running owned)
    ]

-- In every state that a run leads to from the empty service: a handle with an owner other than its own
-- loop can become ready: some steps of the service and its loops alone lead to a state in which it is.
pub Steps-ready_of :
    {s : State} (id : ℕ) (h : Handle)
    → Steps new s
    → lookup id s.handles ≡ some h
    → own_of (lookup id s.loops) < h.strong
    → (t : State) × Serves s t × (ready_of id t ≡ true)
Steps-ready_of id h run held owned = Inv-Readies id h (Inv-Steps Inv-new run) held owned
