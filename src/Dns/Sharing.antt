-- ===== src/Dns/Sharing.antt =====
-- `backends_for_hostname` of grcache-proxy/src/discovery/dns.rs: who shares a handle.
use grcache.Prelude.{
  ℕ, ◌<◌, ◌≡◌, refl, true, some, arith, Option-cases, inl, inr, nat_eq, Text, eq_refl,
}
use grcache.Prelude.Map.{lookup, lookup-insert}
use grcache.Dns.{
  State, is_live, HostPort, host_port_eq, on_handle, create, upgraded, backends_for_hostname, new,
  clone,
}
use grcache.Dns.Cells.{is_live-eq_true, upgraded-is_live}
use grcache.Dns.Step.{Steps}
use grcache.Dns.Invariant.{Inv}
use grcache.Dns.Invariant.Moves.{Inv-new}
use grcache.Dns.Runs.{Inv-Steps}
use grcache.Dns.Kept.{Keeps-Steps}

-- The handle that a call returns is the one that its host has in the map then, and has been created.
call_mapped :
    (hostname : Text) (port : ℕ) {s : State}
    → Inv s
    → (lookup (hostname, port) (backends_for_hostname hostname port s).0.service_backends
        ≡ some (backends_for_hostname hostname port s).1)
      × ((backends_for_hostname hostname port s).1 < (backends_for_hostname hostname port s).0.next)
unfolding backends_for_hostname create
call_mapped hostname port {s = s} inv = elim (Option-cases (upgraded (hostname, port) s)) [
  | inl gone ↦
      rw (gone, backends_for_hostname)
        (
          ground (
            arith,
            lookup-insert (hostname, port) (hostname, port) s.next s.service_backends,
            eq_refl {A = HostPort} (hostname, port),
          ),
          omega arith,
        )
  | inr (id, found) ↦
      let (mapped, live) = upgraded-is_live (hostname, port) id s found in
      let (h, e, pos) = is_live-eq_true id s live in
      rw (found, backends_for_hostname) (mapped, inv.fresh id h e)
]

call_again :
    (hostname : Text) (port id : ℕ) (s : State)
    → lookup (hostname, port) s.service_backends ≡ some id
    → is_live id s ≡ true
    → backends_for_hostname hostname port s ≡ (on_handle id clone s, id)
unfolding backends_for_hostname upgraded
call_again hostname port id s mapped live =
    let found : upgraded (hostname, port) s ≡ some id = rw (mapped, upgraded, live) refl in
    rw (found, backends_for_hostname) refl

-- In every state that a run leads to from the empty service: once a call has returned a handle for a
-- host, then in every state that any further run leads to in which the handle still has an owner, a call
-- for that host returns the same handle, and all that it changes is to add an owner to it.
pub backends_for_hostname-Steps :
    {s t : State} (hostname : Text) (port : ℕ)
    → Steps new s
    → Steps (backends_for_hostname hostname port s).0 t
    → is_live (backends_for_hostname hostname port s).1 t ≡ true
    → backends_for_hostname hostname port t ≡ (
      on_handle (backends_for_hostname hostname port s).1 clone t,
      (backends_for_hostname hostname port s).1,
    )
backends_for_hostname-Steps {s = s} {t = t} hostname port reached run live =
    let (mapped, small) = call_mapped hostname port (Inv-Steps Inv-new reached) in
    let id = (backends_for_hostname hostname port s).1 in
    call_again hostname port id t ((Keeps-Steps run).maps (hostname, port) id small mapped live)
      live
