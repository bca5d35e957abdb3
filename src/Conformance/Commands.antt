-- ===== src/Conformance/Commands.antt =====
-- The commands that conformance-tests/src/main.rs runs.
use containerd_shim_spin.Prelude.{String, ◌<>◌, List, [], ◌∷◌}
use containerd_shim_spin.Conformance.Machine.{Command}

-- The arguments of `spin registry push`.
abbrev pub push_command : String → String → Command
push_command spin_binary image = record {
  program = spin_binary;
  args = "registry" ∷ "push" ∷ "-k" ∷ image ∷ [];
  env = [];
}

abbrev pub pull_command : String → String → Command
pull_command ctr_binary image = record {
  program = ctr_binary;
  args = "image" ∷ "pull" ∷ image ∷ [];
  env = [];
}

-- The arguments of `ctr run`; `listen` is the value for `SPIN_HTTP_LISTEN_ADDR`.
abbrev pub run_args : String → String → String → List String
run_args listen image ctr_run_id =
    "run"
    ∷ "--rm"
    ∷ "--net-host"
    ∷ "--runtime"
    ∷ "io.containerd.spin.v2"
    ∷ "--env"
    ∷ ("SPIN_HTTP_LISTEN_ADDR=" <> listen)
    ∷ image
    ∷ ctr_run_id
    ∷ "bogus-arg"
    ∷ []

-- The name of an image in the registry of a test.
abbrev pub image_name : String → String → String
image_name port oci_image = "localhost:" <> port <> "/" <> oci_image <> ":latest"
