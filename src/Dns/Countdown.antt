-- ===== src/Dns/Countdown.antt =====
-- What a turn of grcache-proxy/src/discovery/dns.rs does to the loops, its own and the others.
use mathlib.Core.Option.{some-injective}
use mathlib.Core.Path.{subst}
use Prim.Native.Nat.{◌≤◌}
use grcache.Prelude.{
  ℕ, ◌+◌, ◌≡◌, refl, sym, true, false, Option, none, some, [], arith, Option-cases, Bool-cases, inl,
  inr, nat_eq, nat_beq,
}
use grcache.Prelude.Map.{lookup, insert, remove, lookup-insert, lookup-remove}
use grcache.Dns.{
  Phase, starting, looking, changed, updating, checking, Loop, State, is_live, HostPort,
  host_port_eq, on_handle, strong_count, Response, failed, addresses, advance_loop, at_phase, stop,
  is_modified, collect_backends, clone, drop, update, set_backends, set_ready,
}
use grcache.Dns.Invariant.{weak}

-- How many turns a loop has left, once its weak reference is to no live handle.
abbrev pub left : Phase → ℕ
left starting = 4
left (looking id) = 3
left (changed id) = 2
left (updating id) = 2
left (checking id) = 1

abbrev pub LeftOf : ℕ → ℕ → Option Loop → Type 0
LeftOf id n none = Unit
LeftOf id n (some l) = (weak l.phase ≡ some id) × (left l.phase ≤ n)

-- A turn of the loop takes one of those that it has left.
module _ (sender id n : ℕ) (s : State) (dead : is_live id s ≡ false) where
  unfoldable pub After : Option State → Type 0
  After none = Unit
  After (some t) = LeftOf id n (lookup sender t.loops)

  After-at_phase :
      (host_port : HostPort) (phase : Phase) (t : State)
      → weak phase ≡ some id
      → left phase ≤ n
      → After (some (at_phase sender host_port phase t))
  unfolding After
  After-at_phase host_port phase t watched fewer =
      let l : Loop = record { host_port = host_port; phase = phase } in
      let e : lookup sender (insert sender l t.loops) ≡ some l =
        ground (arith, lookup-insert sender sender l t.loops) in
      subst (LeftOf id n) (sym e) (watched, fewer)

  After-stop : After (some (stop sender s))
  unfolding After
  After-stop =
      let e : lookup sender (remove sender s.loops) ≡ none =
        ground (arith, lookup-remove sender sender s.loops) in
      subst (LeftOf id n) (sym e) tt

  not_counted : nat_beq (strong_count id s) 0 ≡ true
  not_counted = ground arith

  pub After-advance_loop :
      (r : Response) (host_port : HostPort) (phase : Phase)
      → weak phase ≡ some id
      → left phase ≤ n + 1
      → After (advance_loop r sender host_port phase s)
  unfolding advance_loop After
  After-advance_loop r host_port starting w k = absurd (ground arith)
  After-advance_loop failed host_port (looking j) w k =
      let same : j ≡ id = some-injective _ _ w in rw (same, not_counted, advance_loop) After-stop
  After-advance_loop (addresses addrs) host_port (looking j) w k =
      elim (Bool-cases (is_modified sender (collect_backends host_port.1 addrs []) s.handles)) [
        | inl e ↦
            rw (e, advance_loop)
              (After-at_phase host_port (changed j)
                (on_handle sender (set_backends (collect_backends host_port.1 addrs [])) s) w
                (omega (arith, k)))
        | inr e ↦
            rw (e, advance_loop) (After-at_phase host_port (checking j) s w (omega (arith, k)))
      ]
  After-advance_loop r host_port (changed j) w k =
      let same : j ≡ id = some-injective _ _ w in
      rw (same, dead, advance_loop)
        (After-at_phase host_port (checking id) s refl (omega (arith, k)))
  After-advance_loop r host_port (updating j) w k =
      After-at_phase host_port (checking j) (on_handle id drop (on_handle id update s)) w
        (omega (arith, k))
  After-advance_loop r host_port (checking j) w k =
      let same : j ≡ id = some-injective _ _ w in rw (same, not_counted, advance_loop) After-stop

-- A turn leaves the commands and the other loops as they are.
module _ (sender i : ℕ) (s : State) where
  unfoldable pub Apart : Option State → Type 0
  Apart none = Unit
  Apart (some t) =
      (t.commands ≡ s.commands)
      × (nat_beq i sender ≡ false → lookup sender t.loops ≡ lookup sender s.loops)

  Apart-insert :
      (l : Loop) (t : State)
      → t.commands ≡ s.commands
      → t.loops ≡ s.loops
      → Apart (some (record t { loops = insert i l t.loops }))
  unfolding Apart
  Apart-insert l t commands loops =
      (commands, λ other. ground (arith, lookup-insert i sender l t.loops))

  Apart-stop : Apart (some (stop i s))
  unfolding Apart
  Apart-stop = (refl, λ other. ground (arith, lookup-remove i sender s.loops))

  pub Apart-advance_loop :
      (r : Response) (host_port : HostPort) (phase : Phase)
      → Apart (advance_loop r i host_port phase s)
  unfolding advance_loop Apart
  Apart-advance_loop r host_port starting =
      elim (Option-cases (lookup host_port s.service_backends)) [
        | inl n ↦ rw (n, advance_loop) tt
        | inr (id, e) ↦
            rw (e, advance_loop)
              (Apart-insert (record { host_port = host_port; phase = looking id }) s refl refl)
      ]
  Apart-advance_loop failed host_port (looking id) =
      elim (Bool-cases (nat_beq (strong_count id s) 0)) [
        | inl e ↦ rw (e, advance_loop) Apart-stop
        | inr e ↦ rw (e, advance_loop) (refl, λ other. refl)
      ]
  Apart-advance_loop (addresses addrs) host_port (looking id) =
      let backends = collect_backends host_port.1 addrs [] in
      elim (Bool-cases (is_modified i backends s.handles)) [
        | inl e ↦
            rw (e, advance_loop)
              (Apart-insert (record { host_port = host_port; phase = changed id })
                (on_handle i (set_backends backends) s) refl refl)
        | inr e ↦
            rw (e, advance_loop)
              (Apart-insert (record { host_port = host_port; phase = checking id }) s refl refl)
      ]
  Apart-advance_loop r host_port (changed id) = elim (Bool-cases (is_live id s)) [
    | inl e ↦
        rw (e, advance_loop)
          (Apart-insert (record { host_port = host_port; phase = updating id })
            (on_handle id clone s) refl refl)
    | inr e ↦
        rw (e, advance_loop)
          (Apart-insert (record { host_port = host_port; phase = checking id }) s refl refl)
  ]
  Apart-advance_loop r host_port (updating id) =
      Apart-insert (record { host_port = host_port; phase = checking id })
        (on_handle id drop (on_handle id update s)) refl refl
  Apart-advance_loop r host_port (checking id) = elim (Bool-cases (nat_beq (strong_count id s) 0)) [
    | inl e ↦ rw (e, advance_loop) Apart-stop
    | inr e ↦
        rw (e, advance_loop)
          (Apart-insert (record { host_port = host_port; phase = looking id })
            (on_handle i set_ready s) refl refl)
  ]
