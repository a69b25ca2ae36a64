-- ===== src/Worker/Output/Closing.antt =====
-- What follows from the two closes of the output channel.
use devops_platform.Base.{◌≡◌, true, false, arith}
use devops_platform.Worker.Output.{
  Channel, finished, done, opened, close, send, ◌⇒◌, call, call_error, cancel, close_starter, eof,
  receive_error, receive, report, output, give_up, close_reader, leave, ◌⇒*◌, here, next,
}

-- Until a panic the channel is closed exactly when one of the two goroutines has closed it, and not
-- both have.
record IsOnce (c : Channel) : Type 0 where
  not_both : c.has_panicked ≡ false → c.starter ≡ finished → c.reader ≡ done → ⊥
  closed_starter : c.has_panicked ≡ false → c.starter ≡ finished → c.is_closed ≡ true
  closed_reader : c.has_panicked ≡ false → c.reader ≡ done → c.is_closed ≡ true

⇒-IsOnce : {c d : Channel} → c.has_panicked ≡ false → c ⇒ d → IsOnce c → IsOnce d
unfolding close send
⇒-IsOnce {c} n (call e) h = ground arith
⇒-IsOnce {c} n (call_error e) h = ground arith
⇒-IsOnce {c} n (cancel e) h = ground arith
⇒-IsOnce {c} n (close_starter e) h = ground arith
⇒-IsOnce {c} n (eof e) h = ground arith
⇒-IsOnce {c} n (receive_error e) h = ground arith
⇒-IsOnce {c} n (receive state e) h = ground arith
⇒-IsOnce {c} n (report e o) h = ground arith
⇒-IsOnce {c} n (output true e o) h = ground arith
⇒-IsOnce {c} n (output false e o) h = ground arith
⇒-IsOnce {c} n (give_up last e o) h = ground arith
⇒-IsOnce {c} n (close_reader e) h = ground arith
⇒-IsOnce {c} n (leave e) h = ground arith

⇒*-IsOnce : {c d : Channel} → IsOnce c → c ⇒* d → IsOnce d
⇒*-IsOnce h here = h
⇒*-IsOnce h (next r n s) = ⇒-IsOnce n s (⇒*-IsOnce h r)

-- In every execution in which ExecuteCommand opened its stream and both goroutines came to their
-- end, closing the channel twice, or sending on it once closed, panicked.
pub both_ends_panic :
    {c : Channel} → opened ⇒* c → c.starter ≡ finished → c.reader ≡ done → c.has_panicked ≡ true
both_ends_panic {c} r s d = ground (arith, (⇒*-IsOnce (ground arith) r).not_both)
