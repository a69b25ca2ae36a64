-- ===== src/Docker/Ports.antt =====
-- The port of an address that internal/adapters/sandbox/docker_sandbox.go makes.
use Prim.Native.Char.{code}
use text.Mathlib.TextLemmas.{cons-append, append_assoc, nil-append}
use devops_platform.Base.{
  ℕ, ◌+◌, ◌-◌, ◌<◌, ◌≡◌, refl, true, false, ◌||◌, String, concat, ◌∙◌, ap, none, some, ◌==◌,
  string_eq, nat_eq, arith, ok,
}
use devops_platform.Docker.Texts.{decimal, IsNumeral, decimal-IsNumeral}
use devops_platform.Docker.Addresses.{
  strip, has_prefix, trim_prefix, has_char, split_last, split_host_port, plain_port, ported,
  port_of, port_from, DockerSandbox, get_available_address,
}

strip-concat : (p s : String) → strip p (concat p s) ≡ some s
unfolding strip
strip-concat String.[] s = rw (nil-append s) refl
strip-concat (String.◌∷◌ c p) s = rw (cons-append c p s, strip-concat p s) (ground arith)

split_last-numeral : (s : String) → IsNumeral s → split_last s ≡ none
unfolding split_last
split_last-numeral String.[] h = refl
split_last-numeral (String.◌∷◌ c s) h =
    let other : (code c == b':') ≡ false = ground arith in rw (split_last-numeral s h.1, other) refl

split_last-concat :
    (a s : String) → split_last s ≡ none → split_last (concat a (String.◌∷◌ ":" s)) ≡ some (a, s)
unfolding split_last
split_last-concat String.[] s h = rw (nil-append (String.◌∷◌ ":" s), h) refl
split_last-concat (String.◌∷◌ c a) s h =
    rw (cons-append c a (String.◌∷◌ ":" s), split_last, split_last-concat a s h) refl

has_char-numeral : (k : ℕ) (s : String) → IsNumeral s → (9 < k - b'0') → has_char k s ≡ false
has_char-numeral k String.[] h b = refl
has_char-numeral k (String.◌∷◌ c s) h b =
    let other : (code c == k) ≡ false = ground arith in rw (other) (has_char-numeral k s h.1 b)

has_char-concat : (k : ℕ) (a b : String) → has_char k (concat a b) ≡ (has_char k a || has_char k b)
has_char-concat k String.[] b = rw (nil-append b) refl
has_char-concat k (String.◌∷◌ c a) b = rw (cons-append c a b, has_char-concat k a b) (ground arith)

ported-local :
    (s : String) (parts : String × String)
    → ported (concat "localhost" (String.◌∷◌ ":" s)) (some parts)
      ≡ plain_port (concat "localhost" (String.◌∷◌ ":" s)) parts
unfolding ported
ported-local s parts = rw (cons-append "l" "ocalhost" (String.◌∷◌ ":" s)) refl

split_local :
    (s : String)
    → IsNumeral s
    → split_host_port (concat "localhost" (String.◌∷◌ ":" s)) ≡ ok ("localhost", s)
unfolding split_host_port
split_local s h =
    let address : String = concat "localhost" (String.◌∷◌ ":" s) in
    ap (ported address) (split_last-concat "localhost" s (split_last-numeral s h))
    ∙ ported-local s ("localhost", s)
    ∙ rw
        (
          has_char-concat b'[' "localhost" (String.◌∷◌ ":" s),
          has_char-concat b']' "localhost" (String.◌∷◌ ":" s),
          has_char-numeral b'[' s h (omega arith),
          has_char-numeral b']' s h (omega arith),
        )
        refl

trim_prefix-concat : (p s : String) → trim_prefix p (concat p s) ≡ s
unfolding trim_prefix
trim_prefix-concat p s = rw (trim_prefix, strip-concat p s) refl

trim_prefix-local :
    (s : String) → trim_prefix "https://" (concat "localhost" s) ≡ concat "localhost" s
unfolding trim_prefix strip
trim_prefix-local s = rw (cons-append "l" "ocalhost" s) refl

whole :
    (s : String)
    → concat "http://localhost:" s ≡ concat "http://" (concat "localhost" (String.◌∷◌ ":" s))
whole s =
    append_assoc "http://localhost" ":" s
    ∙ ap (concat "http://localhost") (cons-append ":" "" s ∙ ap (String.◌∷◌ ":") (nil-append s))
    ∙ append_assoc "http://" "localhost" (String.◌∷◌ ":" s)

local_port : (s : String) → IsNumeral s → port_of (concat "http://localhost:" s) ≡ ok s
unfolding port_of
local_port s h =
    ap (λ a. port_of a) (whole s)
    ∙ ap (λ a. port_from (split_host_port (trim_prefix "https://" a)))
        (trim_prefix-concat "http://" (concat "localhost" (String.◌∷◌ ":" s)))
    ∙ ap (λ a. port_from (split_host_port a)) (trim_prefix-local (String.◌∷◌ ":" s))
    ∙ ap port_from (split_local s h)

-- For a docker daemon on the same machine, the address that getAvailableAddress makes has the port that
-- was drawn: the text of the random number above the least port.
pub port_of-get_available_address :
    (d : DockerSandbox) (random : ℕ)
    → (has_prefix "unix://" d.host || d.host == "") ≡ true
    → port_of (get_available_address d random) ≡ ok (decimal (random + d.min_port))
unfolding get_available_address
port_of-get_available_address d random local =
    rw local (local_port (decimal (random + d.min_port)) (decimal-IsNumeral (random + d.min_port)))
