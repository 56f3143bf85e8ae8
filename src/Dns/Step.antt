-- ===== src/Dns/Step.antt =====
-- The runs of the service discovery in grcache-proxy/src/discovery/dns.rs: the steps of its callers,
-- of the service and of the loops, in any order.
use grcache.Prelude.{ℕ, ◌≡◌, true, some, Text}
use grcache.Dns.{
  State, is_live, on_handle, clone, drop, backends_for_hostname, receive, Response, advance,
}

-- Owners of live handles copy and drop them.
pub data Step (s : State) : State → Type 0 where
  call : (hostname : Text) (port : ℕ) → Step s (backends_for_hostname hostname port s).0
  copy : (id : ℕ) → is_live id s ≡ true → Step s (on_handle id clone s)
  release : (id : ℕ) → is_live id s ≡ true → Step s (on_handle id drop s)
  accept : Step s (receive s)
  turn : (r : Response) (sender : ℕ) {t : State} → advance r sender s ≡ some t → Step s t

-- What the steps from `s` lead to.
pub data Steps (s : State) : State → Type 0 where
  here : Steps s s
  next : {t u : State} → Steps s t → Step t u → Steps s u

-- What the service and its loops do by themselves.
pub data Serves (s : State) : State → Type 0 where
  idle : Serves s s
  accepted : {t : State} → Serves s t → Serves s (receive t)
  turned :
      {t u : State}
      → Serves s t
      → (r : Response) (sender : ℕ) → advance r sender t ≡ some u
      → Serves s u

pub Serves-Steps : {s t : State} → Serves s t → Steps s t
Serves-Steps idle = here
Serves-Steps (accepted run) = next (Serves-Steps run) accept
Serves-Steps (turned run r sender e) = next (Serves-Steps run) (turn r sender e)
