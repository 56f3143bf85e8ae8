-- ===== src/Cli.antt =====
-- grcache-cli/src/main.rs: the commands of the command line tool. The file system, the crates clap and
-- serde_yaml and the schema that the kube crate derives are parameters; `none` is a panic.
use grcache.Prelude.{Option, none, List, [], ◌∷◌, Text}
use grcache.Store.{◌>>=◌}

pub data Commands : Type 0 where
  validate_cluster : Commands
  validate : (descriptor_sets : List Text) → Commands
  upload_descriptors : (config : Text) → (bucket_id : Text) → (descriptor_set : Text) → Commands
  generate_schemas : (out_dir : Text) → Commands

pub record Args : Type 0 where
  pub command : Commands

-- What the tool uses of the outside; `none` is an error.
pub record World : Type 1 where
  pub Files : Type 0
  pub Value : Type 0
  -- `PathBuf::push`, of an empty path at first
  pub push : Text → Text → Text
  pub create : Text → Files → Option Files
  -- `serde_yaml::to_writer`, to the file at a path
  pub to_writer : Text → Value → Files → Option Files
  -- `GrcacheService::crd`
  pub crd : Value

-- "grcache_service_crd.yaml"
abbrev pub schema_name : Text
schema_name =
    b'g' ∷ b'r' ∷ b'c' ∷ b'a' ∷ b'c' ∷ b'h' ∷ b'e' ∷ b'_' ∷ b's' ∷ b'e' ∷ b'r' ∷ b'v' ∷ b'i' ∷ b'c'
    ∷ b'e' ∷ b'_' ∷ b'c' ∷ b'r' ∷ b'd' ∷ b'.' ∷ b'y' ∷ b'a' ∷ b'm' ∷ b'l' ∷ []

module _ (w : World) where
  open w use {Files, Value, push, create, to_writer, crd}

  unfoldable pub write_yaml : Text → Text → Value → Files → Option Files
  write_yaml out_dir name value files =
      let path = push (push [] out_dir) name in
      do created ← create path files; to_writer path value created

  unfoldable pub main : Args → Files → Option Files
  main args files = elim args.command [
    | Commands.validate_cluster ↦ none
    | Commands.validate descriptor_sets ↦ none
    | Commands.upload_descriptors config bucket_id descriptor_set ↦ none
    | Commands.generate_schemas out_dir ↦ write_yaml out_dir schema_name crd files
  ]
