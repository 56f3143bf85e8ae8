-- ===== src/Dns/Queue.antt =====
-- The queue of commands in grcache-proxy/src/discovery/dns.rs: which handles wait for their loop.
use grcache.Prelude.{
  ℕ, ◌+◌, ◌<◌, ◌≡◌, refl, true, none, some, List, [], ◌∷◌, ◌++◌, nat_eq, pair_eq, text_eq, arith,
  is_some,
}
use grcache.Prelude.Map.{Map, lookup, insert, remove, lookup-insert, lookup-remove}
use grcache.Dns.{Loop, HostPort, host_port_eq}
use grcache.Dns.Cells.{lookup-snoc}

-- Each handle that waits has been created, has no loop, and waits once; its host is in the map.
abbrev pub IsQueue : ℕ → Map HostPort ℕ → Map ℕ Loop → List (ℕ × HostPort) → Type 0
IsQueue next map loops [] = Unit
IsQueue next map loops ((id, host_port) ∷ rest) =
    (id < next)
    × (is_some (lookup host_port map) ≡ true)
    × (lookup id loops ≡ none)
    × (lookup id rest ≡ none)
    × IsQueue next map loops rest

pub IsQueue-insert_host :
    (next : ℕ) (map : Map HostPort ℕ) (loops : Map ℕ Loop) (host_port : HostPort)
    (l : List (ℕ × HostPort))
    → IsQueue next map loops l
    → IsQueue (next + 1) (insert host_port next map) loops l
IsQueue-insert_host next map loops host_port [] q = tt
IsQueue-insert_host next map loops host_port ((id, hp) ∷ rest) (small, known, idle, once, q) = (
  omega (arith, small),
  ground (arith, lookup-insert host_port hp next map),
  idle,
  once,
  IsQueue-insert_host next map loops host_port rest q,
)

pub fresh-IsQueue :
    (next : ℕ) (map : Map HostPort ℕ) (loops : Map ℕ Loop) (l : List (ℕ × HostPort))
    → IsQueue next map loops l
    → lookup next l ≡ none
unfolding lookup
fresh-IsQueue next map loops [] q = refl
fresh-IsQueue next map loops ((id, hp) ∷ rest) (small, known, idle, once, q) =
    ground (arith, fresh-IsQueue next map loops rest q)

pub IsQueue-snoc :
    (next id : ℕ) (map : Map HostPort ℕ) (loops : Map ℕ Loop) (host_port : HostPort)
    (l : List (ℕ × HostPort))
    → id < next
    → is_some (lookup host_port map) ≡ true
    → lookup id loops ≡ none
    → lookup id l ≡ none
    → IsQueue next map loops l
    → IsQueue next map loops (l ++ (id, host_port) ∷ [])
unfolding lookup
IsQueue-snoc next id map loops host_port [] small known idle absent q =
    (small, known, idle, refl, tt)
IsQueue-snoc next id map loops host_port ((i, hp) ∷ rest) small known idle absent (s, k, d, o, q) =
    (
      s,
      k,
      d,
      ground (arith, lookup-snoc id i host_port rest),
      IsQueue-snoc next id map loops host_port rest small known idle (ground arith) q,
    )

-- A loop that starts or goes on is none of those that wait.
pub IsQueue-insert_loop :
    (next sender : ℕ) (map : Map HostPort ℕ) (loops : Map ℕ Loop) (new : Loop)
    (l : List (ℕ × HostPort))
    → lookup sender l ≡ none
    → IsQueue next map loops l
    → IsQueue next map (insert sender new loops) l
unfolding lookup
IsQueue-insert_loop next sender map loops new [] absent q = tt
IsQueue-insert_loop next sender map loops new ((i, hp) ∷ rest) absent (s, k, d, o, q) = (
  s,
  k,
  ground (arith, lookup-insert sender i new loops),
  o,
  IsQueue-insert_loop next sender map loops new rest (ground arith) q,
)

pub IsQueue-remove_loop :
    (next sender : ℕ) (map : Map HostPort ℕ) (loops : Map ℕ Loop) (l : List (ℕ × HostPort))
    → IsQueue next map loops l
    → IsQueue next map (remove sender loops) l
IsQueue-remove_loop next sender map loops [] q = tt
IsQueue-remove_loop next sender map loops ((i, hp) ∷ rest) (s, k, d, o, q) = (
  s,
  k,
  ground (arith, lookup-remove sender i loops),
  o,
  IsQueue-remove_loop next sender map loops rest q,
)

-- A loop that runs does not wait.
pub absent-IsQueue :
    (next sender : ℕ) (map : Map HostPort ℕ) (loops : Map ℕ Loop) (running : Loop)
    (l : List (ℕ × HostPort))
    → lookup sender loops ≡ some running
    → IsQueue next map loops l
    → lookup sender l ≡ none
unfolding lookup
absent-IsQueue next sender map loops running [] e q = refl
absent-IsQueue next sender map loops running ((i, hp) ∷ rest) e (s, k, d, o, q) =
    ground (arith, absent-IsQueue next sender map loops running rest e q)
