-- ===== src/Grpc/Readers.antt =====
-- internal/adapters/grpc/server/worker_process_server.go, lines 74 to 123: the two goroutines that read what a process
-- writes and send it line by line, in turns that the scheduler chooses, before and after the final message.
use Prim.Native.Char.{code}
use devops_platform.Base.{
  if◌then◌else◌, string_eq, ◌≡◌, refl, ◌∙◌, ap, Bool, true, false, ltb, String, concat, List, [],
  ◌∷◌, ◌++◌, map, length, none, ok, ◌==◌, nat_eq, Bool-cases, inl, inr,
}
use devops_platform.Sandbox.HyperV.{trim_space}
use devops_platform.Grpc.Server.{
  Request, Process, Wait, execute_command, run_process, line_output, final_output,
}

-- The loop of a reader, after what it read of its line: ReadString gives a line up to its newline; at the end of
-- the pipe it gives io.EOF with what is left, and the loop ends.
unfoldable pub read_lines : String → String → List String
read_lines line String.[] = []
read_lines line (String.◌∷◌ c s) = elim (code c == 10) [
  | true ↦ trim_space line ∷ read_lines "" s
  | false ↦ read_lines (concat line (String.◌∷◌ c "")) s
]

-- The lines that are sent, by which reader has its turn; `true` is that of stderr.
unfoldable pub send_lines : List Bool → List String → List String → List (Bool × String)
send_lines [] out err = []
send_lines (false ∷ turns) [] err = send_lines turns [] err
send_lines (false ∷ turns) (l ∷ out) err = (false, l) ∷ send_lines turns out err
send_lines (true ∷ turns) out [] = send_lines turns out []
send_lines (true ∷ turns) out (l ∷ err) = (true, l) ∷ send_lines turns out err

-- What the readers then have not sent.
unfoldable pub left_lines : List Bool → List String → List String → List String × List String
left_lines [] out err = (out, err)
left_lines (false ∷ turns) [] err = left_lines turns [] err
left_lines (false ∷ turns) (l ∷ out) err = left_lines turns out err
left_lines (true ∷ turns) out [] = left_lines turns out []
left_lines (true ∷ turns) out (l ∷ err) = left_lines turns out err

-- A process that starts and writes these two texts, with the turns before and after the final message.
unfoldable pub process_of : List Bool → List Bool → String → String → Wait → Process
unfolding read_lines send_lines left_lines
process_of turns late_turns stdout stderr wait =
    let (out, err) = left_lines turns (read_lines "" stdout) (read_lines "" stderr) in
    record {
      start_error = none;
      lines = send_lines turns (read_lines "" stdout) (read_lines "" stderr);
      wait = wait;
      late = send_lines late_turns out err;
    }

-- The lines of one of the streams.
abbrev pub of_stream : Bool → List (Bool × String) → List String
of_stream b [] = []
of_stream true ((true, l) ∷ ls) = l ∷ of_stream true ls
of_stream false ((false, l) ∷ ls) = l ∷ of_stream false ls
of_stream true ((false, l) ∷ ls) = of_stream true ls
of_stream false ((true, l) ∷ ls) = of_stream false ls

abbrev pub IsPrefix : List String → List String → Type 0
IsPrefix xs ys = (rest : List String) × (xs ++ rest ≡ ys)

send_lines-IsPrefix :
    (turns : List Bool) (out err : List String)
    → IsPrefix (of_stream false (send_lines turns out err)) out
      × IsPrefix (of_stream true (send_lines turns out err)) err
unfolding send_lines
send_lines-IsPrefix [] out err = ((out, refl), (err, refl))
send_lines-IsPrefix (false ∷ turns) [] err = send_lines-IsPrefix turns [] err
send_lines-IsPrefix (false ∷ turns) (l ∷ out) err =
    let ((rest, e), other) = send_lines-IsPrefix turns out err in ((rest, ap (λ r. l ∷ r) e), other)
send_lines-IsPrefix (true ∷ turns) out [] = send_lines-IsPrefix turns out []
send_lines-IsPrefix (true ∷ turns) out (l ∷ err) =
    let (other, (rest, e)) = send_lines-IsPrefix turns out err in (other, (rest, ap (λ r. l ∷ r) e))

-- The text up to its last newline, which is empty where it has none.
abbrev pub whole_lines : String → String
whole_lines String.[] = ""
whole_lines (String.◌∷◌ c s) =
    let rest = whole_lines s in
    if code c == 10 then String.◌∷◌ c rest else if rest == "" then "" else String.◌∷◌ c rest

-- What stands after the last newline is not read.
read_lines-whole_lines : (line s : String) → read_lines line s ≡ read_lines line (whole_lines s)
unfolding read_lines
read_lines-whole_lines line String.[] = refl
read_lines-whole_lines line (String.◌∷◌ c s) = elim (Bool-cases (code c == 10)) [
  | inl b ↦ rw (b, read_lines) (rw b (ap (λ r. trim_space line ∷ r) (read_lines-whole_lines "" s)))
  | inr b ↦
      let longer = concat line (String.◌∷◌ c "") in
      elim (Bool-cases (whole_lines s == "")) [
        | inl e ↦
            rw (b, e, read_lines)
              (read_lines-whole_lines longer s
                ∙ ap (read_lines longer) ((string_eq.equal_iff (whole_lines s) "").0 e))
        | inr e ↦ rw (b, e, read_lines) (rw b (read_lines-whole_lines longer s))
      ]
]

send_lines-append :
    (turns late_turns : List Bool) (out err : List String)
    → let (out', err') = left_lines turns out err in
      send_lines turns out err ++ send_lines late_turns out' err'
      ≡ send_lines (turns ++ late_turns) out err
unfolding send_lines left_lines
send_lines-append [] late_turns out err = refl
send_lines-append (false ∷ turns) late_turns [] err = send_lines-append turns late_turns [] err
send_lines-append (false ∷ turns) late_turns (l ∷ out) err =
    ap (λ r. (false, l) ∷ r) (send_lines-append turns late_turns out err)
send_lines-append (true ∷ turns) late_turns out [] = send_lines-append turns late_turns out []
send_lines-append (true ∷ turns) late_turns out (l ∷ err) =
    ap (λ r. (true, l) ∷ r) (send_lines-append turns late_turns out err)

-- For a free worker, a request with a command and a process that starts: the messages of ExecuteCommand are
-- messages in state RUNNING, the final one, and again messages in state RUNNING. Those of stdout are, in their
-- order, a prefix of the lines of stdout, and those of stderr a prefix of the lines of stderr, whatever the turns of
-- the two readers before and after the final message.
pub outputs_by_stream :
    (req : Request) (turns late_turns : List Bool) (stdout stderr : String) (wait : Wait)
    → ltb 0 (length req.command) ≡ true
    → let reply =
        execute_command false (ok req) (λ r. process_of turns late_turns stdout stderr wait) in
      (lines late : List (Bool × String)) × (reply.outputs
        ≡ map (line_output req.process_id) lines
          ++ final_output req.process_id wait ∷ map (line_output req.process_id) late)
      × IsPrefix (of_stream false (lines ++ late)) (read_lines "" stdout)
      × IsPrefix (of_stream true (lines ++ late)) (read_lines "" stderr)
unfolding execute_command run_process process_of
outputs_by_stream req turns late_turns stdout stderr wait h =
    let out = read_lines "" stdout in
    let err = read_lines "" stderr in
    let (of_stdout, of_stderr) = send_lines-IsPrefix (turns ++ late_turns) out err in
    let joined = send_lines-append turns late_turns out err in
    (
      send_lines turns out err,
      send_lines late_turns (left_lines turns out err).0 (left_lines turns out err).1,
      rw h refl,
      rw joined of_stdout,
      rw joined of_stderr,
    )

-- For a free worker and a process that starts, whatever the turns of the two readers: ExecuteCommand sends and
-- returns the same as where each of the two texts ends after its last newline, or is empty where it has none.
pub execute_command-unterminated :
    (req : Request) (turns late_turns : List Bool) (stdout stderr : String) (wait : Wait)
    → execute_command false (ok req) (λ r. process_of turns late_turns stdout stderr wait)
      ≡ execute_command false
          (ok req)
          (λ r. process_of turns late_turns (whole_lines stdout) (whole_lines stderr) wait)
unfolding process_of
execute_command-unterminated req turns late_turns stdout stderr wait =
    rw (read_lines-whole_lines "" stdout, read_lines-whole_lines "" stderr) refl
