-- ===== src/Sandbox/HyperV.antt =====
-- internal/adapters/sandbox/hyperv.go: the Hyper-V sandbox service, over PowerShell. The clock is an argument.
use Prim.Native.Char.{Char, code}
use devops_platform.Base.{
  ℕ, ◌≡◌, refl, Bool, ◌&&◌, ◌||◌, leb, String, concat, List, [], ◌∷◌, none, some, lookup, ◌==◌,
  string_eq, nat_eq, if◌then◌else◌, Result, ok, err, panic,
}
use devops_platform.Task.Defs.{SandboxConfig}
use devops_platform.Sandbox.Factory.{HyperVConfig}
use devops_platform.Docker.Texts.{decimal}

pub record HyperVSandbox : Type 0 where
  pub vm_image_path : String

unfoldable pub new_hyper_v_sandbox : HyperVConfig → Result HyperVSandbox
new_hyper_v_sandbox config = ok (record { vm_image_path = config.vm_image_path })

-- unicode.IsSpace
abbrev is_space : Char → Bool
is_space c =
    (leb 9 (code c) && leb (code c) 13)
    || code c == 32
    || code c == 133
    || code c == 160
    || code c == 5760
    || (leb 8192 (code c) && leb (code c) 8202)
    || code c == 8232
    || code c == 8233
    || code c == 8239
    || code c == 8287
    || code c == 12288

unfoldable pub trim_left : String → String
trim_left String.[] = ""
trim_left (String.◌∷◌ c s) = if is_space c then trim_left s else String.◌∷◌ c s

-- The text without the spaces at its end.
unfoldable pub trim_right : String → String
trim_right String.[] = ""
trim_right (String.◌∷◌ c s) =
    let rest = trim_right s in if is_space c && rest == "" then "" else String.◌∷◌ c rest

-- strings.TrimSpace
abbrev pub trim_space : String → String
unfolding trim_left trim_right
trim_space s = trim_right (trim_left s)

-- A character in front of the first part.
abbrev pub grow : Char → List String → List String
grow c [] = String.◌∷◌ c "" ∷ []
grow c (part ∷ parts) = String.◌∷◌ c part ∷ parts

-- strings.Split(s, "\n")
unfoldable pub split_lines : String → List String
split_lines String.[] = "" ∷ []
split_lines (String.◌∷◌ c s) =
    if code c == b'\n' then "" ∷ split_lines s else grow c (split_lines s)

-- The command that asks for the address of a machine.
abbrev pub address_command : String → String
address_command name =
    concat "(Get-VMNetworkAdapter -VMName \""
      (concat name "\").IpAddresses | Where-Object { $_ -match \"\\d+\\.\\d+\\.\\d+\\.\\d+\" }")

abbrev pub new_command : String → String → String → String
new_command name memory path = concat "New-VM -Name \"" (
    concat name (
      concat "\" -MemoryStartupBytes "
        (concat memory (concat " -VHDPath \"" (concat path "\" -SwitchName \"Default Switch\"")))))

abbrev pub start_command : String → String
start_command name = concat "Start-VM -Name \"" (concat name "\"")

abbrev pub remove_command : String → String
remove_command name =
    concat "Stop-VM -Name \""
      (concat name (concat "\" -Force; Remove-VM -Name \"" (concat name "\" -Force")))

-- `shell` is a run of PowerShell with its output, on the states of the machine.
module _ {H : Type 0} (shell : String → H → Result String × H) where
  abbrev pub with_address : Result String × H → Result String × H
  unfolding trim_left trim_right
  with_address (ok output, h) = (ok (concat (trim_space output) ":50051"), h)
  with_address (err e, h) = (err (concat "failed to get VM IP address: " e), h)
  with_address (panic, h) = (panic, h)

  abbrev pub after_start : String → Result String × H → Result String × H
  after_start name (ok output, h) = with_address (shell (address_command name) h)
  after_start name (err e, h) = (err (concat "failed to start VM: " e), h)
  after_start name (panic, h) = (panic, h)

  abbrev pub after_new : String → Result String × H → Result String × H
  after_new name (ok output, h) = after_start name (shell (start_command name) h)
  after_new name (err e, h) = (err (concat "failed to create VM: " e), h)
  after_new name (panic, h) = (panic, h)

  -- A machine that was made stays where a later command fails.
  unfoldable pub create_vm_sandbox : ℕ → SandboxConfig → H → Result String × H
  create_vm_sandbox now config h = elim (lookup "vm_image_path" config.metadata) [
    | some path ↦
        let name = concat "sandbox-" (decimal now) in
        after_new name (shell (new_command name config.resources.memory path) h)
    | none ↦ (err "missing 'vm_image_path' in metadata", h)
  ]

  abbrev pub after_remove : Result String × H → Result (Unit {0}) × H
  after_remove (ok output, h) = (ok tt, h)
  after_remove (err e, h) = (err (concat "failed to delete VM: " e), h)
  after_remove (panic, h) = (panic, h)

  unfoldable pub delete_vm_sandbox : String → H → Result (Unit {0}) × H
  delete_vm_sandbox id h = after_remove (shell (remove_command id) h)

  -- A machine whose address cannot be read is left out.
  abbrev pub joined : Result String × H → Result (List String) × H → Result (List String) × H
  unfolding trim_left trim_right
  joined (ok output, h') (ok addresses, h) =
      (ok (concat (trim_space output) ":50051" ∷ addresses), h)
  joined (ok output, h') rest = rest
  joined (err e, h') rest = rest
  joined (panic, h') rest = (panic, h')

  unfoldable pub addresses_of : List String → H → Result (List String) × H
  addresses_of [] h = (ok [], h)
  addresses_of (name ∷ names) h =
      let answer = shell (address_command name) h in joined answer (addresses_of names answer.1)

  abbrev pub list_from : Result String × H → Result (List String) × H
  unfolding split_lines trim_left trim_right addresses_of
  list_from (ok output, h) = addresses_of (split_lines (trim_space output)) h
  list_from (err e, h) = (err (concat "failed to list VMs: " e), h)
  list_from (panic, h) = (panic, h)

  unfoldable pub list_vm_sandboxes : H → Result (List String) × H
  unfolding addresses_of
  list_vm_sandboxes h = list_from (shell "Get-VM | Select-Object -ExpandProperty Name" h)

  -- Where every command succeeds, CreateContainerSandbox makes, starts and asks the machine named by the
  -- time, in that order, and gives its address with the port 50051.
  pub create_vm_sandbox_lem :
      (now : ℕ) (config : SandboxConfig) (path made begun output : String) (h h1 h2 h3 : H)
      → lookup "vm_image_path" config.metadata ≡ some path
      → let name = concat "sandbox-" (decimal now) in
        shell (new_command name config.resources.memory path) h ≡ (ok made, h1)
        → shell (start_command name) h1 ≡ (ok begun, h2)
        → shell (address_command name) h2 ≡ (ok output, h3)
        → create_vm_sandbox now config h ≡ (ok (concat (trim_space output) ":50051"), h3)
  unfolding create_vm_sandbox with_address
  create_vm_sandbox_lem now config path made begun output h h1 h2 h3 l n s a =
      rw (create_vm_sandbox, l, n, s, a) refl
