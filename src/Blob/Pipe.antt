-- ===== src/Blob/Pipe.antt =====
-- blob/pipe.go: the pipe between the composer and the recompressor, a bounded queue of writes. The
-- channel is the list of the writes that it holds; a select with two cases that are ready takes
-- either, which is an argument. The slots are positive, as a channel without any is no queue.
pub mod Fifo
use oci_amber.Prelude.{
  ◌≡◌, ℕ, Bool, true, false, not, ◌&&◌, ◌||◌, Option, none, some, List, [], ◌∷◌, ◌++◌, length, ltb,
  take, drop, if◌then◌else◌,
}
use oci_amber.Prelude.Text.{Bytes}

-- The errors of an end of the pipe; the producer's own errors are numbered.
pub data PipeError : Type 0 where
  closed_pipe end_of_file : PipeError
  failure : ℕ → PipeError

-- `ended` says that the channel is closed, `closed` that CloseRead was called.
pub record Pipe : Type 0 where
  pub slots : ℕ
  pub queue : List Bytes
  pub ended : Bool
  pub closed : Bool
  pub cur : Bytes
  pub werr : Option PipeError

-- newPipe
abbrev pub new_pipe : ℕ → Pipe
new_pipe slots = record {
  slots = slots;
  queue = [];
  ended = false;
  closed = false;
  cur = [];
  werr = none;
}

-- The second select of Write, for a copy of the bytes; none while it blocks. `pick` prefers the closed
-- end when both cases are ready.
unfoldable pub send_chunk : Bool → Bytes → Pipe → Option (Pipe × Option PipeError)
send_chunk pick b p =
    let room = ltb (length p.queue) p.slots in
    if p.closed && (pick || not room)
    then some (p, some closed_pipe)
    else if room
    then some (record p { queue = p.queue ++ b ∷ [] }, none)
    else none

-- CloseWrite
abbrev pub close_write : Option PipeError → Pipe → Pipe
close_write e p = record p { ended = true; werr = e }

-- CloseRead
abbrev pub close_read : Pipe → Pipe
close_read p = record p { closed = true }

-- What a Read gives; `waits` is a Read that blocks for the producer.
pub data Received : Type 0 where
  bytes_read : Bytes → Received
  stops : PipeError → Received
  waits : Received

-- The loop of Read takes writes from the channel until one is not empty.
unfoldable pub fill_cur : List Bytes → Bytes × List Bytes
fill_cur [] = ([], [])
fill_cur ([] ∷ q) = fill_cur q
fill_cur ((c ∷ cs) ∷ q) = (c ∷ cs, q)

abbrev pub stop_error : Option PipeError → PipeError
stop_error none = end_of_file
stop_error (some e) = e

-- Behind the loop of Read.
unfoldable pub take_cur : ℕ → Bytes × List Bytes → Pipe → Pipe × Received
take_cur n ([], q) p =
    (record p { cur = []; queue = q }, if p.ended then stops (stop_error p.werr) else waits)
take_cur n (c ∷ cs, q) p =
    (record p { cur = drop n (c ∷ cs); queue = q }, bytes_read (take n (c ∷ cs)))

-- Read, into a buffer of `n` bytes. CloseRead is not called during a Read, by the consumer alone.
unfoldable pub read_pipe : ℕ → Pipe → Bytes → Pipe × Received
unfolding take_cur fill_cur
read_pipe n p (c ∷ cs) = take_cur n (c ∷ cs, p.queue) p
read_pipe n p [] = if p.closed then (p, stops closed_pipe) else take_cur n (fill_cur p.queue) p

-- A pipe in use: the Write that is past its first select, the bytes whose Write has returned, the bytes
-- that Reads have returned and the error of the last Read that returned one.
pub record Run : Type 0 where
  pub pipe : Pipe
  pub pending : Option Bytes
  pub sent : Bytes
  pub got : Bytes
  pub stopped : Option PipeError

abbrev pub start : ℕ → Run
start slots = record { pipe = new_pipe slots; pending = none; sent = []; got = []; stopped = none }

-- The steps of the producer, which does not write behind CloseWrite, and of the consumer.
pub data Step (r : Run) : Run → Type 0 where
  begins_write :
      (b : Bytes)
      → r.pending ≡ none
      → r.pipe.ended ≡ false
      → r.pipe.closed ≡ false
      → Step r (record r { pending = some b })
  sends :
      (pick : Bool) (b : Bytes) (p : Pipe)
      → r.pending ≡ some b
      → send_chunk pick b r.pipe ≡ some (p, none)
      → Step r (record r { pipe = p; pending = none; sent = r.sent ++ b })
  gives_up :
      (pick : Bool) (b : Bytes) (p : Pipe) (e : PipeError)
      → r.pending ≡ some b
      → send_chunk pick b r.pipe ≡ some (p, some e)
      → Step r (record r { pipe = p; pending = none })
  ends_write :
      (e : Option PipeError)
      → r.pending ≡ none
      → r.pipe.ended ≡ false
      → Step r (record r { pipe = close_write e r.pipe })
  reads :
      (n : ℕ) (p : Pipe) (b : Bytes)
      → read_pipe n r.pipe r.pipe.cur ≡ (p, bytes_read b)
      → Step r (record r { pipe = p; got = r.got ++ b })
  stops_read :
      (n : ℕ) (p : Pipe) (e : PipeError)
      → read_pipe n r.pipe r.pipe.cur ≡ (p, stops e)
      → Step r (record r { pipe = p; stopped = some e })
  waits_read :
      (n : ℕ) (p : Pipe)
      → read_pipe n r.pipe r.pipe.cur ≡ (p, waits)
      → Step r (record r { pipe = p })
  closes_read : Step r (record r { pipe = close_read r.pipe })

-- The runs that a pipe of some slots comes to.
pub data Reach (slots : ℕ) : Run → Type 0 where
  starts : Reach slots (start slots)
  then_step : (r t : Run) → Reach slots r → Step r t → Reach slots t
