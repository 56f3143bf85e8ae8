-- ===== src/Dns/Owners.antt =====
-- Who owns the handles of grcache-proxy/src/discovery/dns.rs: a loop holds one while it updates it.
use mathlib.Core.Option.{some-injective}
use mathlib.Core.Path.{subst}
use Prim.Native.Nat.{◌≤◌}
use grcache.Prelude.{
  ℕ, ◌+◌, ◌≡◌, refl, ap, ◌∙◌, true, Option, none, some, List, [], ◌∷◌, if◌then◌else◌, arith, Text,
  Option-cases, Bool-cases, inl, inr, nat_eq, nat_beq, nat_beq_iff,
}
use grcache.Prelude.Map.{lookup, lookup-insert, total, total-insert, total-remove, weight_of}
use grcache.Dns.{
  Handle, Phase, starting, looking, changed, updating, checking, Loop, State, is_live, HostPort,
  host_port_eq, Response, failed, addresses, advance_loop, advance, is_modified, collect_backends,
  strong_count, on_handle, at_phase, stop, create, upgraded, receive, backends_for_hostname,
  new_handle, clone, drop, update, set_backends, set_ready,
}
use grcache.Dns.Cells.{lookup-modify, is_live-eq_true, upgraded-is_live}
use grcache.Dns.Invariant.{Inv}

abbrev pub updates : ℕ → Phase → ℕ
updates id (updating j) = if nat_beq j id then 1 else 0
updates id starting = 0
updates id (looking j) = 0
updates id (changed j) = 0
updates id (checking j) = 0

abbrev pub loop_owns : ℕ → Loop → ℕ
loop_owns id l = updates id l.phase

-- How many loops hold the handle.
unfoldable pub loops_own : ℕ → State → ℕ
loops_own id s = total (loop_owns id) s.loops

-- What loops hold more in `t` than in `s`, the handle has more owners there.
unfoldable pub Pays : State → State → Type 0
Pays s t = (id : ℕ) → loops_own id t + strong_count id s ≤ loops_own id s + strong_count id t

pub Pays-refl : (s : State) → Pays s s
unfolding Pays
Pays-refl s id = omega arith

strong_count-on_handle :
    (id j : ℕ) (f : Handle → Handle) (s : State)
    → ((h : Handle) → (f h).strong ≡ h.strong)
    → strong_count id (on_handle j f s) ≡ strong_count id s
unfolding strong_count
strong_count-on_handle id j f s same = elim (Option-cases (lookup id s.handles)) [
  | inl n ↦ ground (arith, lookup-modify j id f s.handles)
  | inr (h, e) ↦ ground (arith, lookup-modify j id f s.handles, same h)
]

pub strong_count-clone :
    (id j : ℕ) (s : State)
    → is_live j s ≡ true
    → strong_count id (on_handle j clone s) ≡ strong_count id s + (if nat_beq j id then 1 else 0)
unfolding strong_count
strong_count-clone id j s live =
    let (h, e, pos) = is_live-eq_true j s live in
    elim (Bool-cases (nat_beq j id)) [
      | inr other ↦ ground (arith, lookup-modify j id clone s.handles)
      | inl same ↦
          let q = (nat_beq_iff j id).0 same in ground (arith, lookup-modify j id clone s.handles)
    ]

pub strong_count-drop :
    (id j : ℕ) (s : State)
    → strong_count id s ≤ strong_count id (on_handle j drop s) + (if nat_beq j id then 1 else 0)
unfolding strong_count
strong_count-drop id j s = elim (Option-cases (lookup id s.handles)) [
  | inl n ↦ ground (arith, lookup-modify j id drop s.handles)
  | inr (h, e) ↦ ground (arith, lookup-modify j id drop s.handles)
]

strong_count-create :
    (id : ℕ) (host_port : HostPort) {s : State}
    → Inv s
    → strong_count id (create host_port s)
      ≡ strong_count id s + (if nat_beq s.next id then 1 else 0)
unfolding strong_count create
strong_count-create id host_port {s = s} inv = elim (Option-cases (lookup s.next s.handles)) [
  | inr (h, e) ↦ absurd (omega (arith, inv.fresh s.next h e))
  | inl n ↦ elim (Bool-cases (nat_beq s.next id)) [
    | inr other ↦ ground (arith, lookup-insert s.next id new_handle s.handles)
    | inl same ↦
        let q = (nat_beq_iff s.next id).0 same in
        ground (arith, lookup-insert s.next id new_handle s.handles)
  ]
]

-- The caller gets the handle that is counted.
pub strong_count-call :
    (id : ℕ) (hostname : Text) (port : ℕ) {s : State}
    → Inv s
    → strong_count id (backends_for_hostname hostname port s).0
      ≡ strong_count id s + (if nat_beq (backends_for_hostname hostname port s).1 id then 1 else 0)
unfolding backends_for_hostname
strong_count-call id hostname port {s = s} inv = elim (Option-cases (upgraded (hostname, port) s)) [
  | inl gone ↦ rw (gone, backends_for_hostname) (strong_count-create id (hostname, port) inv)
  | inr (j, found) ↦
      rw (found, backends_for_hostname)
        (strong_count-clone id j s (upgraded-is_live (hostname, port) j s found).1)
]

pub loops-call :
    (hostname : Text) (port : ℕ) (s : State)
    → (backends_for_hostname hostname port s).0.loops ≡ s.loops
unfolding backends_for_hostname create
loops-call hostname port s = elim (Option-cases (upgraded (hostname, port) s)) [
  | inl gone ↦ rw (gone, backends_for_hostname) refl
  | inr (j, found) ↦ rw (found, backends_for_hostname) refl
]

-- A loop that goes on holds what its next phase holds.
loops_own-at_phase :
    (id sender : ℕ) (host_port : HostPort) (phase : Phase) (l : Loop) (s : State)
    → lookup sender s.loops ≡ some l
    → loops_own id (at_phase sender host_port phase s) + updates id l.phase
      ≡ loops_own id s + updates id phase
unfolding loops_own
loops_own-at_phase id sender host_port phase l s running =
    let after : Loop = record { host_port = host_port; phase = phase } in
    rw (ap (weight_of (loop_owns id)) running) at (total-insert (loop_owns id) sender after s.loops)

-- What a turn leads to, if it does not panic.
PaysTo : State → Option State → Type 0
PaysTo s none = Unit
PaysTo s (some t) = Pays s t

module _ (s : State) (sender : ℕ) (host_port : HostPort) where
  abbrev Runs : Phase → Type 0
  Runs phase = lookup sender s.loops ≡ some (record { host_port = host_port; phase = phase })

  -- The phase changes, and the handles.
  moves :
      (t : State) (phase phase' : Phase)
      → t.loops ≡ s.loops
      → Runs phase
      → ((id : ℕ) → updates id phase' + strong_count id s ≤ updates id phase + strong_count id t)
      → Pays s (at_phase sender host_port phase' t)
  unfolding Pays
  moves t phase phase' loops running enough id =
      let same : strong_count id (at_phase sender host_port phase' t) ≡ strong_count id t =
        unfold strong_count in refl in
      let kept : loops_own id t ≡ loops_own id s =
        unfold loops_own in ap (total (loop_owns id)) loops in
      omega (
        arith,
        enough id,
        same,
        kept,
        loops_own-at_phase id sender host_port phase'
            (record { host_port = host_port; phase = phase }) t
            (ap (lookup sender) loops ∙ running),
      )

  -- The phase changes alone, and the loop does not hold the handle after.
  rests :
      (phase phase' : Phase)
      → Runs phase
      → ((id : ℕ) → updates id phase' ≡ 0)
      → Pays s (at_phase sender host_port phase' s)
  rests phase phase' running none_after =
      moves s phase phase' refl running (λ id. omega (arith, none_after id))

  stops : (phase : Phase) → Runs phase → Pays s (stop sender s)
  unfolding Pays loops_own strong_count
  stops phase running id = omega (arith, total-remove (loop_owns id) sender s.loops)

  kept_count :
      (j : ℕ) (f : Handle → Handle)
      → ((h : Handle) → (f h).strong ≡ h.strong)
      → (id : ℕ) → 0 + strong_count id s ≤ 0 + strong_count id (on_handle j f s)
  kept_count j f same id = omega (arith, strong_count-on_handle id j f s same)

  advance_loop-PaysTo :
      (r : Response) (phase : Phase)
      → Runs phase
      → PaysTo s (advance_loop r sender host_port phase s)
  unfolding advance_loop PaysTo
  advance_loop-PaysTo r starting running =
      elim (Option-cases (lookup host_port s.service_backends)) [
        | inl n ↦ rw (n, advance_loop) tt
        | inr (id, e) ↦ rw (e, advance_loop) (rests starting (looking id) running (λ i. refl))
      ]
  advance_loop-PaysTo failed (looking id) running =
      elim (Bool-cases (nat_beq (strong_count id s) 0)) [
        | inl e ↦ rw (e, advance_loop) (stops (looking id) running)
        | inr e ↦ rw (e, advance_loop) (Pays-refl s)
      ]
  advance_loop-PaysTo (addresses addrs) (looking id) running =
      let backends = collect_backends host_port.1 addrs [] in
      elim (Bool-cases (is_modified sender backends s.handles)) [
        | inl e ↦
            rw (e, advance_loop)
              (moves (on_handle sender (set_backends backends) s) (looking id) (changed id) refl
                running (kept_count sender (set_backends backends) (λ h. refl)))
        | inr e ↦ rw (e, advance_loop) (rests (looking id) (checking id) running (λ i. refl))
      ]
  advance_loop-PaysTo r (changed id) running = elim (Bool-cases (is_live id s)) [
    | inl e ↦
        rw (e, advance_loop)
          (moves (on_handle id clone s) (changed id) (updating id) refl running
            (λ i. omega (arith, strong_count-clone i id s e)))
    | inr e ↦ rw (e, advance_loop) (rests (changed id) (checking id) running (λ i. refl))
  ]
  advance_loop-PaysTo r (updating id) running =
      let updated = on_handle id update s in
      moves (on_handle id drop updated) (updating id) (checking id) refl running (λ i.
        omega
          (arith, strong_count-on_handle i id update s (λ h. refl), strong_count-drop i id updated))
  advance_loop-PaysTo r (checking id) running = elim (Bool-cases (nat_beq (strong_count id s) 0)) [
    | inl e ↦ rw (e, advance_loop) (stops (checking id) running)
    | inr e ↦
        rw (e, advance_loop)
          (moves (on_handle sender set_ready s) (checking id) (looking id) refl running
            (kept_count sender set_ready (λ h. refl)))
  ]

pub Pays-advance :
    (r : Response) (sender : ℕ) (s : State) {t : State} → advance r sender s ≡ some t → Pays s t
unfolding advance PaysTo
Pays-advance r sender s e = elim (Option-cases (lookup sender s.loops)) [
  | inl n ↦ subst (Pays s) (some-injective _ _ (rw (n, advance) at e)) (Pays-refl s)
  | inr (l, running) ↦
      subst (PaysTo s) (rw (running, advance) at e)
        (advance_loop-PaysTo s sender l.host_port r l.phase running)
]

-- A loop that starts holds nothing, and replaces none.
pub Pays-receive : (s : State) (l : List (ℕ × HostPort)) → s.commands ≡ l → Pays s (receive s)
unfolding receive Pays loops_own strong_count
Pays-receive s [] e id = simp (e, receive) (omega arith)
Pays-receive s ((sender, host_port) ∷ rest) e id =
    simp (e, receive)
      (omega (
        arith,
        total-insert (loop_owns id) sender (record { host_port = host_port; phase = starting })
            s.loops,
      ))

pub Pays-call :
    (hostname : Text) (port : ℕ) {s : State}
    → Inv s
    → Pays s (backends_for_hostname hostname port s).0
unfolding Pays
Pays-call hostname port {s = s} inv id =
    let kept : loops_own id (backends_for_hostname hostname port s).0 ≡ loops_own id s =
      unfold loops_own in ap (total (loop_owns id)) (loops-call hostname port s) in
    omega (arith, kept, strong_count-call id hostname port inv)

pub Pays-copy : (id : ℕ) (s : State) → is_live id s ≡ true → Pays s (on_handle id clone s)
unfolding Pays
Pays-copy j s live id =
    let kept : loops_own id (on_handle j clone s) ≡ loops_own id s = unfold loops_own in refl in
    omega (arith, kept, strong_count-clone id j s live)
