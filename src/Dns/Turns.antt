-- ===== src/Dns/Turns.antt =====
-- The turns of a loop of grcache-proxy/src/discovery/dns.rs that make its handle ready.
use grcache.Prelude.{
  ℕ, ◌<◌, ◌≡◌, refl, ◌∙◌, true, false, some, List, [], arith, Bool-cases, inl, inr, nat_eq, nat_beq,
}
use grcache.Prelude.Map.{lookup, lookup-insert}
use grcache.Dns.{
  Handle, Phase, starting, looking, changed, updating, checking, Loop, State, HostPort,
  host_port_eq, on_handle, strong_count, Response, failed, addresses, advance_loop, advance,
  at_phase, is_modified, collect_backends, clone, drop, update, set_backends, set_ready, ready_of,
  modify,
}
use grcache.Dns.Cells.{lookup-modify, is_live_of_lookup}
use grcache.Dns.Step.{Serves, turned}

module _ (id : ℕ) (host_port : HostPort) (addrs : List ℕ) where
  abbrev pub loop_at : Phase → Loop
  loop_at phase = record { host_port = host_port; phase = phase }

  -- The loop of the handle is at a phase, and the handle is as given.
  pub record At (phase : Phase) (h : Handle) (s : State) : Type 0 where
    pub running : lookup id s.loops ≡ some (loop_at phase)
    pub held : lookup id s.handles ≡ some h

  abbrev pub Readies : State → Type 0
  Readies s = (t : State) × Serves s t × (ready_of id t ≡ true)

  At-moved :
      (phase : Phase) (h : Handle) (f : Handle → Handle) (s : State)
      → lookup id s.handles ≡ some h
      → At phase (f h) (at_phase id host_port phase (on_handle id f s))
  At-moved phase h f s held = record {
    running = ground (arith, lookup-insert id id (loop_at phase) s.loops);
    held = ground (arith, held, lookup-modify id id f s.handles);
  }

  advance-At :
      (r : Response) (phase : Phase) (h : Handle) (s : State)
      → At phase h s
      → advance r id s ≡ advance_loop r id host_port phase s
  unfolding advance
  advance-At r phase h s at_s = rw (at_s.running, advance) refl

  pub from_checking :
      {s₀ : State} (s : State) (h : Handle)
      → Serves s₀ s
      → At (checking id) h s
      → 0 < h.strong
      → Readies s₀
  unfolding advance_loop strong_count ready_of
  from_checking s h run at_s pos =
      let counted : nat_beq (strong_count id s) 0 ≡ false = ground (arith, at_s.held) in
      let e : advance failed id s
          ≡ some (at_phase id host_port (looking id) (on_handle id set_ready s)) =
        advance-At failed (checking id) h s at_s ∙ rw (counted, advance_loop) refl in
      (
        at_phase id host_port (looking id) (on_handle id set_ready s),
        turned run failed id e,
        ground (arith, at_s.held, lookup-modify id id set_ready s.handles),
      )

  pub from_updating :
      {s₀ : State} (s : State) (h : Handle)
      → Serves s₀ s
      → At (updating id) h s
      → 1 < h.strong
      → Readies s₀
  unfolding advance_loop
  from_updating s h run at_s pos =
      let s' = at_phase id host_port (checking id) (on_handle id drop (on_handle id update s)) in
      let updated : lookup id (modify id update s.handles) ≡ some (update h) =
        ground (arith, at_s.held, lookup-modify id id update s.handles) in
      from_checking s' (drop (update h))
        (turned run failed id (advance-At failed (updating id) h s at_s))
        (At-moved (checking id) (update h) drop (on_handle id update s) updated)
        (omega (arith, pos))

  pub from_changed :
      {s₀ : State} (s : State) (h : Handle)
      → Serves s₀ s
      → At (changed id) h s
      → 0 < h.strong
      → Readies s₀
  unfolding advance_loop
  from_changed s h run at_s pos =
      let live = is_live_of_lookup id s h at_s.held pos in
      let e : advance failed id s
          ≡ some (at_phase id host_port (updating id) (on_handle id clone s)) =
        advance-At failed (changed id) h s at_s ∙ rw (live, advance_loop) refl in
      from_updating (at_phase id host_port (updating id) (on_handle id clone s)) (clone h)
        (turned run failed id e) (At-moved (updating id) h clone s at_s.held) (omega (arith, pos))

  pub from_looking :
      {s₀ : State} (s : State) (h : Handle)
      → Serves s₀ s
      → At (looking id) h s
      → 0 < h.strong
      → Readies s₀
  unfolding advance_loop
  from_looking s h run at_s pos =
      let backends = collect_backends host_port.1 addrs [] in
      elim (Bool-cases (is_modified id backends s.handles)) [
        | inl yes_modified ↦
            let e : advance (addresses addrs) id s
                ≡ some
                    (at_phase id host_port (changed id) (on_handle id (set_backends backends) s)) =
              advance-At (addresses addrs) (looking id) h s at_s
              ∙ rw (yes_modified, advance_loop) refl in
            from_changed
              (at_phase id host_port (changed id) (on_handle id (set_backends backends) s))
              (set_backends backends h) (turned run (addresses addrs) id e)
              (At-moved (changed id) h (set_backends backends) s at_s.held) pos
        | inr not_modified ↦
            let e : advance (addresses addrs) id s ≡ some (at_phase id host_port (checking id) s) =
              advance-At (addresses addrs) (looking id) h s at_s
              ∙ rw (not_modified, advance_loop) refl in
            from_checking (at_phase id host_port (checking id) s) h
              (turned run (addresses addrs) id e)
              (record {
                running = ground (arith, lookup-insert id id (loop_at (checking id)) s.loops);
                held = at_s.held;
              })
              pos
      ]

  pub from_starting :
      {s₀ : State} (s : State) (h : Handle)
      → Serves s₀ s
      → At starting h s
      → lookup host_port s.service_backends ≡ some id
      → 0 < h.strong
      → Readies s₀
  unfolding advance_loop
  from_starting s h run at_s mapped pos =
      let e : advance failed id s ≡ some (at_phase id host_port (looking id) s) =
        advance-At failed starting h s at_s ∙ rw (mapped, advance_loop) refl in
      from_looking (at_phase id host_port (looking id) s) h (turned run failed id e)
        (record {
          running = ground (arith, lookup-insert id id (loop_at (looking id)) s.loops);
          held = at_s.held;
        })
        pos
