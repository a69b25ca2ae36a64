-- ===== src/Worker/Output.antt =====
-- The output channel of a command, which two goroutines close: the one that StartTask launches
-- (internal/adapters/worker/worker_service.go, lines 284 to 311) and the one that ExecuteCommand launches
-- (internal/adapters/grpc/client/worker_client.go, lines 30 to 92).
pub mod Closing
use devops_platform.Base.{
  ℕ, ◌≡◌, refl, ◌≢◌, Bool, true, false, ◌||◌, String, arith, if◌then◌else◌, Comparable, ◌==◌,
  string_eq, inl, inr, ◌⊎◌,
}

-- StartTask's goroutine: in ExecuteCommand, before its deferred `cancel()`, before its deferred
-- `close(outputChan)`, at its end.
pub data Starter : Type 0 where
  calling cancelling closing finished : Starter

-- ExecuteCommand's goroutine: not launched, in Recv, sending an output (the last one or not), sending
-- the report of an error, before its deferred `close(outputChan)`, at its end.
pub data Reader : Type 0 where
  absent receiving reporting ending done : Reader
  sending : Bool → Reader

pub record Channel : Type 0 where
  pub starter : Starter
  pub reader : Reader
  pub is_closed : Bool
  pub is_cancelled : Bool
  -- processTaskOutput still receives
  pub is_listening : Bool
  pub has_panicked : Bool

abbrev pub opened : Channel
opened = record {
  starter = calling;
  reader = absent;
  is_closed = false;
  is_cancelled = false;
  is_listening = true;
  has_panicked = false;
}

-- close(outputChan): a panic if the channel is closed.
unfoldable pub close : Channel → Channel
close c = if c.is_closed then record c { has_panicked = true } else record c { is_closed = true }

-- outputChan <- x: a panic if the channel is closed.
unfoldable pub send : Reader → Channel → Channel
send after c = if c.is_closed then record c { has_panicked = true } else record c { reader = after }

-- resp.State == "completed" || resp.State == "failed"
unfoldable pub is_last : String → Bool
is_last state = state == "completed" || state == "failed"

abbrev pub after_send : Bool → Reader
after_send true = ending
after_send false = receiving

infix 40 ◌⇒◌ ◌⇒*◌
pub data ◌⇒◌ (c : Channel) : Channel → Type 0 where
  -- the stream opens and the request is sent; or an error, which is returned
  call : c.starter ≡ calling → c ⇒ record c { starter = cancelling; reader = receiving }
  call_error : c.starter ≡ calling → c ⇒ record c { starter = cancelling }
  cancel : c.starter ≡ cancelling → c ⇒ record c { starter = closing; is_cancelled = true }
  close_starter : c.starter ≡ closing → c ⇒ close (record c { starter = finished })
  eof : c.reader ≡ receiving → c ⇒ record c { reader = ending }
  receive_error : c.reader ≡ receiving → c ⇒ record c { reader = reporting }
  receive :
      (state : String) → c.reader ≡ receiving → c ⇒ record c { reader = sending (is_last state) }
  -- the report is sent outside a `select`, an output in one that the context can end
  report : c.reader ≡ reporting → (c.is_closed ≡ true) ⊎ (c.is_listening ≡ true) → c ⇒ send ending c
  output :
      (last : Bool)
      → c.reader ≡ sending last
      → (c.is_closed ≡ true) ⊎ (c.is_listening ≡ true)
      → c ⇒ send (after_send last) c
  give_up :
      (last : Bool)
      → c.reader ≡ sending last
      → c.is_cancelled ≡ true
      → c ⇒ record c { reader = ending }
  close_reader : c.reader ≡ ending → c ⇒ close (record c { reader = done })
  -- processTaskOutput returns on a closed channel or an ended context
  leave : (c.is_closed ≡ true) ⊎ (c.is_cancelled ≡ true) → c ⇒ record c { is_listening = false }

-- A panic ends the program.
pub data ◌⇒*◌ (c : Channel) : Channel → Type 0 where
  here : c ⇒* c
  next : {d e : Channel} → c ⇒* d → d.has_panicked ≡ false → d ⇒ e → c ⇒* e
