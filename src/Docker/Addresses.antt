-- ===== src/Docker/Addresses.antt =====
-- internal/adapters/sandbox/docker_sandbox.go, lines 19 to 68: the service, its constructor and the address of
-- a new sandbox, with the functions of strings and net on it. The random number is an argument.
use Prim.Native.Char.{code}
use devops_platform.Base.{
  ℕ, not, ◌+◌, Bool, true, false, ◌||◌, String, concat, [], Option, none, some, ◌==◌, string_eq,
  nat_eq, if◌then◌else◌, Map, remove, Result, ok, err, panic,
}
use devops_platform.Docker.Texts.{decimal}

-- The text after a prefix, where it has it.
unfoldable pub strip : String → String → Option String
strip String.[] s = some s
strip (String.◌∷◌ c p) String.[] = none
strip (String.◌∷◌ c p) (String.◌∷◌ d s) =
    let rest = strip p s in if code c == code d then rest else none

-- strings.HasPrefix and TrimPrefix, with the prefix first
unfoldable pub has_prefix : String → String → Bool
unfolding strip
has_prefix p s = elim (strip p s) [ some rest ↦ true | none ↦ false ]

unfoldable pub trim_prefix : String → String → String
unfolding strip
trim_prefix p s = elim (strip p s) [ some rest ↦ rest | none ↦ s ]

-- The text before the first character with this code, else all of it: strings.Split(s, ":")[0] for a colon.
unfoldable pub before : ℕ → String → String
before k String.[] = ""
before k (String.◌∷◌ c s) = if code c == k then "" else String.◌∷◌ c (before k s)

abbrev pub has_char : ℕ → String → Bool
has_char k String.[] = false
has_char k (String.◌∷◌ c s) = code c == k || has_char k s

-- The text after the first character with this code.
abbrev pub after_first : ℕ → String → Option String
after_first k String.[] = none
after_first k (String.◌∷◌ c s) = if code c == k then some s else after_first k s

-- The texts before and after the last colon.
unfoldable pub split_last : String → Option (String × String)
split_last String.[] = none
split_last (String.◌∷◌ c s) = elim (split_last s) [
  | some (a, b) ↦ some (String.◌∷◌ c a, b)
  | none ↦ if code c == b':' then some ("", s) else none
]

-- net.SplitHostPort of a text with a colon but no bracket in front: host and port.
abbrev pub plain_port : String → String × String → Result (String × String)
plain_port s (host, port) =
    if has_char b':' host
    then err "too many colons in address"
    else if has_char b'[' s
    then err "unexpected '[' in address"
    else if has_char b']' s
    then err "unexpected ']' in address"
    else ok (host, port)

-- The text after the bracket that closes: a colon and the port.
abbrev pub bracket_port : String → String → Result (String × String)
bracket_port inner String.[] = err "missing port in address"
bracket_port inner (String.◌∷◌ c port) =
    if code c == b':'
    then (if has_char b':' port
        then err "too many colons in address"
        else if has_char b'[' inner || has_char b'[' port
        then err "unexpected '[' in address"
        else if has_char b']' port
        then err "unexpected ']' in address"
        else ok (inner, port))
    else err "missing port in address"

abbrev pub after_bracket : String → Option String → Result (String × String)
unfolding before
after_bracket rest none = err "missing ']' in address"
after_bracket rest (some after) = bracket_port (before b']' rest) after

unfoldable pub ported : String → Option (String × String) → Result (String × String)
unfolding before
ported s none = err "missing port in address"
ported String.[] (some parts) = plain_port "" parts
ported (String.◌∷◌ c s) (some parts) =
    if code c == b'['
    then after_bracket s (after_first b']' s)
    else plain_port (String.◌∷◌ c s) parts

unfoldable pub split_host_port : String → Result (String × String)
unfolding split_last ported
split_host_port s = ported s (split_last s)

-- The service; the client is the state of its methods.
pub record DockerSandbox : Type 0 where
  pub used_addresses : Map String Bool
  pub host : String
  pub min_port : ℕ
  pub max_port : ℕ

-- NewDockerContainerSandboxService, on the client or the error of NewClientWithOpts, and its DaemonHost.
unfoldable pub new_docker_sandbox : Result String → Result DockerSandbox
new_docker_sandbox (ok host) =
    ok (record { used_addresses = []; host = host; min_port = 30000; max_port = 40000 })
new_docker_sandbox (err e) = err (concat "failed to create Docker client: " e)
new_docker_sandbox panic = panic

-- `random` is rand.Intn(maxPort - minPort); the error is always nil.
unfoldable pub get_available_address : DockerSandbox → ℕ → String
unfolding has_prefix trim_prefix before
get_available_address d random =
    let port = decimal (random + d.min_port) in
    if has_prefix "unix://" d.host || d.host == ""
    then concat "http://localhost:" port
    else concat "http://" (concat (before b':' (trim_prefix "tcp://" d.host)) (concat ":" port))

unfoldable pub release_address : String → DockerSandbox → DockerSandbox
release_address address d = record d { used_addresses = remove address d.used_addresses }

-- isAddressAvailable, on whether the dial succeeded.
abbrev pub is_address_available : Bool → Bool
is_address_available dialled = not dialled

abbrev pub port_from : Result (String × String) → Result String
port_from (ok (host, port)) = ok port
port_from (err e) = err (concat "invalid address format: " e)
port_from panic = panic

-- The port of a new sandbox: the address without its scheme, split.
unfoldable pub port_of : String → Result String
unfolding trim_prefix split_host_port
port_of address =
    port_from (split_host_port (trim_prefix "https://" (trim_prefix "http://" address)))
