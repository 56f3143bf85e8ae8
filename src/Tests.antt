-- ===== src/Tests.antt =====
-- Concrete crates, services and requests, and the theorems of the library at them.
pub mod Watcher
pub mod Services
pub mod Loader
pub mod Pipeline
pub mod Readiness
pub mod Grpc
pub mod Requests
pub mod Replicas
pub mod Backends
pub mod Sources
pub mod Process
pub mod Fresh
pub mod Harness
use grcache.Prelude.{
  ℕ, ◌+◌, ◌≡◌, ◌≢◌, refl, sym, Bool, true, false, not, ◌&&◌, Option, none, some, List, [], ◌∷◌,
  ◌++◌, map, Text, text_eq, ◌==◌, if◌then◌else◌, ltb, length, contains, arith, eq_iff, eq_refl,
  eq_cases, inl, inr, All, append_assoc, append-nil, nat_beq, nat_beq_iff, Eq,
}
use grcache.Service.{Result, Protobuf, GrcacheMethodOptions}
use grcache.Store.{Discovery}
use grcache.Grpc.{Headers, Hasher}
use grcache.Proxy.{Pingora}

-- A header map as the list of its entries, whose names all count as canonical.
abbrev pub Entries : Type 0
Entries = List (Text × Text)

abbrev pub entry_keys : Entries → List Text
entry_keys [] = []
entry_keys ((k, v) ∷ h) = k ∷ entry_keys h

abbrev pub values : Entries → Text → List Text
values [] j = []
values ((k, v) ∷ h) j = if k == j then v ∷ values h j else values h j

abbrev pub first : List Text → Option Text
first [] = none
first (v ∷ vs) = some v

abbrev pub without : Text → Entries → Entries
without j [] = []
without j ((k, v) ∷ h) = if k == j then without j h else (k, v) ∷ without j h

abbrev pub AnyName : Text → Type 0
AnyName t = Unit

pub All-canonical : (l : List Text) → All AnyName l
All-canonical [] = tt
All-canonical (t ∷ l) = (tt, All-canonical l)

pub keys-without :
    (k j : Text) (h : Entries)
    → contains j (entry_keys (without k h)) ≡ (not (k == j) && contains j (entry_keys h))
keys-without k j [] = ground arith
keys-without k j ((i, v) ∷ h) =
    ground (arith, keys-without k j h, eq_iff i k, eq_iff i j, eq_iff k j)

pub values-without : (k j : Text) (h : Entries) → k ≢ j → values (without k h) j ≡ values h j
values-without k j [] n = refl
values-without k j ((i, v) ∷ h) n = ground (arith, values-without k j h n, eq_iff i k, eq_iff i j)

abbrev pub headers : Headers
headers = record {
  HeaderMap = Entries;
  IsCanonical = AnyName;
  keys = entry_keys;
  get_all = values;
  get = λ h j. first (values h j);
  remove_header = without;
  to_str = some;
  keys_canonical = λ h. All-canonical (entry_keys h);
  keys-remove_header = λ k j h c. keys-without k j h;
  get_all-remove_header = λ k j h c d n. values-without k j h n;
}

-- A hasher that keeps what it is fed.
abbrev pub hasher : Hasher
hasher = record {
  State = Text;
  new = [];
  update = λ t s. s ++ t;
  finalize = λ s. s;
  update-append = λ a b s. append_assoc s a b;
  update-nil = λ s. append-nil s;
}

abbrev pub Method : Type 0
Method = Text × Option GrcacheMethodOptions

abbrev pub File : Type 0
File = Text × List (Text × List Method)

abbrev pub protobuf : Protobuf
protobuf = record {
  FileDescriptorSet = List File;
  FileDescriptorProto = File;
  FileDescriptor = File;
  ServiceDescriptor = Text × List Method;
  MethodDescriptor = Method;
  ProtoError = ℕ;
  parse_from_bytes = λ t. Result.ok ((t, (t, (t, none) ∷ []) ∷ []) ∷ []);
  file = λ l. l;
  new_dynamic = λ f built. Result.ok f;
  package_of = λ f. f.0;
  services = λ f. f.1;
  service_name = λ s. s.0;
  methods = λ s. s.1;
  method_name = λ m. m.0;
  grcache_options = λ m. m.1;
}

-- A discovery that counts the handles that it gives out.
abbrev pub discovery : Discovery
discovery = record { Dns = ℕ; Handle = ℕ; backends_for_hostname = λ host port n. (n + 1, n) }

-- A retry buffer of 8 bytes.
abbrev pub pingora : Pingora headers.HeaderMap ℕ
pingora = record {
  ReadError = ℕ;
  Buffer = Text;
  CacheKey = Text;
  Backend = ℕ;
  SocketAddr = ℕ;
  as_inet = some;
  empty_buffer = [];
  push = λ t b. b ++ t;
  truncated = λ b. ltb 8 (length b);
  contents = some;
  default_key = λ path h. path;
  select = some;
}

-- `a` and `p.a`
abbrev pub name_a : Text
name_a = 97 ∷ []

abbrev pub dotted : Text
dotted = 112 ∷ 46 ∷ 97 ∷ []

abbrev pub other_dotted : Text
other_dotted = 112 ∷ 46 ∷ 98 ∷ []
