-- ===== src/Docker/Amounts.antt =====
-- internal/adapters/sandbox/docker_sandbox.go, lines 79 to 109: parseMemory and parseDockerCPU. ParseInt gives the
-- bit pattern of an int64, a product wraps around, and what the functions return is read in two's complement.
use devops_platform.Base.{
  ℕ, ℤ, pos, signed, ◌*◌, ◌%◌, ◌^◌, ◌<◌, ◌≡◌, refl, ◌↔◌, String, concat, ◌==◌, string_eq,
  if◌then◌else◌, arith, u64, Result, ok, err, panic,
}
use devops_platform.Docker.Texts.{
  parse_int, has_suffix, trim_suffix, decimal, parse_int-decimal, has_suffix-concat, not_empty,
  trim_suffix-concat,
}

-- A product of int64, one factor after the other.
abbrev pub in_units : ℕ → Result ℕ → Result ℤ
in_units unit (ok n) = ok (signed (n * unit % u64))
in_units unit (err e) = err (concat "invalid memory format: " e)
in_units unit panic = panic

unfoldable pub parse_memory : String → Result ℤ
parse_memory memory =
    if memory == ""
    then err "memory configuration is required"
    else if has_suffix memory "GB"
    then in_units (1024 * 1024 * 1024) (parse_int (trim_suffix memory "GB"))
    else if has_suffix memory "MB"
    then in_units (1024 * 1024) (parse_int (trim_suffix memory "MB"))
    else err "unsupported memory unit, use GB or MB"

abbrev pub as_cpu : Result ℕ → Result ℤ
as_cpu (ok n) = ok (signed n)
as_cpu (err e) = err (concat "failed to parse CPU: " e)
as_cpu panic = panic

unfoldable pub parse_docker_cpu : String → Result ℤ
parse_docker_cpu cpu = as_cpu (parse_int cpu)

-- parseMemory of a decimal number of int64 with a unit is the product, wrapped around to
-- an int64.
pub parse_memory-decimal :
    (n : ℕ)
    → n < 2 ^ 63
    → (parse_memory (concat (decimal n) "GB") ≡ ok (signed (n * 2 ^ 30 % u64)))
      × (parse_memory (concat (decimal n) "MB") ≡ ok (signed (n * 2 ^ 20 % u64)))
unfolding parse_memory
parse_memory-decimal n h = (
  rw
      (
        not_empty (decimal n) "GB" refl,
        has_suffix-concat (decimal n) "GB" "GB" refl,
        trim_suffix-concat (decimal n) "GB",
        parse_int-decimal n h,
      )
      refl,
  rw
      (
        not_empty (decimal n) "MB" refl,
        has_suffix-concat (decimal n) "MB" "GB" refl,
        has_suffix-concat (decimal n) "MB" "MB" refl,
        trim_suffix-concat (decimal n) "MB",
        parse_int-decimal n h,
      )
      refl,
)

signed-exact : (n : ℕ) → signed (n * 2 ^ 30 % u64) ≡ pos (n * 2 ^ 30) → n < 2 ^ 33
signed-exact n e = ground arith

-- For a decimal number of gigabytes of int64, parseMemory gives its bytes exactly when the number is below
-- 2 ^ 33.
pub parse_memory-exact_iff :
    (n : ℕ)
    → n < 2 ^ 63
    → (parse_memory (concat (decimal n) "GB") ≡ ok (pos (n * 2 ^ 30))) ↔ (n < 2 ^ 33)
parse_memory-exact_iff n h =
    rw ((parse_memory-decimal n h).0) ((λ e. signed-exact n cc), λ b. ground arith)
