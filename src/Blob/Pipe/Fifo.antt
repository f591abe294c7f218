-- ===== src/Blob/Pipe/Fifo.antt =====
-- blob/pipe.go: what is read from the pipe is what was written, in order.
use oci_amber.Prelude.{
  ◌≡◌, refl, ap, sym, ◌∙◌, subst, ◌⊎◌, inl, inr, ℕ, ◌≤◌, Bool, true, false, Bool-cases, Option,
  none, some, List, [], ◌∷◌, ◌++◌, length, take, drop, if◌then◌else◌, arith, append_assoc,
  append-nil, take-append-drop, length-append, ltb, ltb→lt, not, ◌&&◌, ◌||◌,
}
use oci_amber.Prelude.Text.{Bytes}
use oci_amber.Prelude.Maybe.{some_injective}
use oci_amber.Blob.Pipe.{
  PipeError, Pipe, Run, Step, Reach, Received, bytes_read, stops, waits, send_chunk, fill_cur,
  take_cur, read_pipe, begins_write, sends, gives_up, ends_write, reads, stops_read, waits_read,
  closes_read, starts, then_step, closed_pipe, end_of_file, stop_error,
}

-- The bytes of the writes of a queue.
abbrev pub concat : List Bytes → Bytes
concat [] = []
concat (b ∷ q) = b ++ concat q

-- The bytes that the pipe holds.
abbrev pub left : Pipe → Bytes
left p = p.cur ++ concat p.queue

concat-append : (q : List Bytes) (b : Bytes) → concat (q ++ b ∷ []) ≡ concat q ++ b
concat-append [] b = append-nil b
concat-append (c ∷ q) b = ap (λ x. c ++ x) (concat-append q b) ∙ sym (append_assoc c (concat q) b)

fill_cur-same :
    (q : List Bytes)
    → ((fill_cur q).0 ++ concat (fill_cur q).1 ≡ concat q) × (length (fill_cur q).1 ≤ length q)
unfolding fill_cur
fill_cur-same [] = (refl, omega arith)
fill_cur-same ([] ∷ q) = let (a, b) = fill_cur-same q in (a, omega (arith, b))
fill_cur-same ((c ∷ cs) ∷ q) = (refl, omega arith)

-- A Read takes its bytes from the front of what the pipe holds.
pub record Takes (p t : Pipe) (g : Bytes) : Type 0 where
  pub held : left p ≡ g ++ left t
  pub shorter : length t.queue ≤ length p.queue
  pub slots : t.slots ≡ p.slots
  pub ended : t.ended ≡ p.ended

abbrev bytes_of : Received → Bytes
bytes_of (bytes_read b) = b
bytes_of (stops e) = []
bytes_of waits = []

take_cur-Takes :
    (n : ℕ) (c : Bytes) (q : List Bytes) (p : Pipe)
    → c ++ concat q ≡ left p
    → length q ≤ length p.queue
    → Takes p (take_cur n (c, q) p).0 (bytes_of (take_cur n (c, q) p).1)
unfolding take_cur
take_cur-Takes n [] q p e h = elim (Bool-cases p.ended) [
  | inl t ↦ rw t (record { held = sym e; shorter = h; slots = refl; ended = refl })
  | inr t ↦ rw t (record { held = sym e; shorter = h; slots = refl; ended = refl })
]
take_cur-Takes n (c ∷ cs) q p e h = record {
  held =
      sym e
      ∙ ap (λ x. x ++ concat q) (sym (take-append-drop n (c ∷ cs)))
      ∙ append_assoc (take n (c ∷ cs)) (drop n (c ∷ cs)) (concat q);
  shorter = h;
  slots = refl;
  ended = refl;
}

read_pipe-Takes :
    (n : ℕ) (p : Pipe) (c : Bytes)
    → c ≡ p.cur
    → Takes p (read_pipe n p c).0 (bytes_of (read_pipe n p c).1)
unfolding read_pipe
read_pipe-Takes n p (c ∷ cs) h =
    take_cur-Takes n (c ∷ cs) p.queue p (ap (λ x. x ++ concat p.queue) h) (omega arith)
read_pipe-Takes n p [] h = elim (Bool-cases p.closed) [
  | inl t ↦ rw t (record { held = refl; shorter = omega arith; slots = refl; ended = refl })
  | inr t ↦
      let (a, b) = fill_cur-same p.queue in
      subst
        (λ x.
          let r = if x then (p, stops closed_pipe) else take_cur n (fill_cur p.queue) p in
          Takes p r.0 (bytes_of r.1))
        (sym t)
        (take_cur-Takes n (fill_cur p.queue).0 (fill_cur p.queue).1 p
          (a ∙ ap (λ x. x ++ concat p.queue) h) b)
]

fill_cur-empty : (q : List Bytes) → (fill_cur q).0 ≡ [] → (fill_cur q).1 ≡ []
unfolding fill_cur
fill_cur-empty [] h = refl
fill_cur-empty ([] ∷ q) h = fill_cur-empty q h
fill_cur-empty ((c ∷ cs) ∷ q) h = absurd cc

-- The producer has called CloseWrite, and nothing is left.
abbrev pub Drained : Pipe → Type 0
Drained p = (p.ended ≡ true) × (left p ≡ [])

take_cur-Drained :
    (n : ℕ) (c : Bytes) (q : List Bytes) (p t : Pipe)
    → (c ≡ [] → q ≡ [])
    → take_cur n (c, q) p ≡ (t, stops end_of_file)
    → Drained t
unfolding take_cur
take_cur-Drained n (c ∷ cs) q p t h e = absurd (cc (ap (λ x. x.1) e))
take_cur-Drained n [] q p t h e = elim (Bool-cases p.ended) [
  | inl u ↦ (sym (ap (λ x. x.0.ended) e) ∙ u, sym (ap (λ x. left x.0) e) ∙ ap concat (h refl))
  | inr u ↦
      absurd (cc (ap (λ x. x.1) e, ap (λ x. if x then stops (stop_error p.werr) else waits) u))
]

read_pipe-Drained :
    (n : ℕ) (p t : Pipe) (c : Bytes) → read_pipe n p c ≡ (t, stops end_of_file) → Drained t
unfolding read_pipe
read_pipe-Drained n p t (c ∷ cs) e = take_cur-Drained n (c ∷ cs) p.queue p t (λ x. absurd cc) e
read_pipe-Drained n p t [] e = elim (Bool-cases p.closed) [
  | inl u ↦ absurd (cc (ap (λ x. x.1) e))
  | inr u ↦
      take_cur-Drained n (fill_cur p.queue).0 (fill_cur p.queue).1 p t (fill_cur-empty p.queue) (
        sym (ap (λ x. if x then (p, stops closed_pipe) else take_cur n (fill_cur p.queue) p) u) ∙ e)
]

-- What was written is what was read and what the pipe still holds; the channel holds its slots at most;
-- and io.EOF comes only when all was read.
pub record IsFifo (slots : ℕ) (r : Run) : Type 0 where
  pub order : r.sent ≡ r.got ++ left r.pipe
  pub same_slots : r.pipe.slots ≡ slots
  pub bounded : length r.pipe.queue ≤ slots
  pub writing : (r.pending ≡ none) ⊎ (r.pipe.ended ≡ false)
  pub complete : r.stopped ≡ some end_of_file → Drained r.pipe

nil-right : (g x : Bytes) → [] ≡ g ++ x → x ≡ []
nil-right [] x h = sym h
nil-right (b ∷ g) x h = absurd cc

-- A Read keeps the order, whatever it gives.
reads-IsFifo :
    (slots : ℕ) (r : Run) (t : Pipe) (g : Bytes)
    → IsFifo slots r
    → Takes r.pipe t g
    → IsFifo slots (record r { pipe = t; got = r.got ++ g })
reads-IsFifo slots r t g v w = record {
  order = v.order ∙ ap (λ x. r.got ++ x) w.held ∙ sym (append_assoc r.got g (left t));
  same_slots = w.slots ∙ v.same_slots;
  bounded = omega (arith, w.shorter, v.bounded);
  writing = elim v.writing [ inl e ↦ inl e | inr e ↦ inr (w.ended ∙ e) ];
  complete = λ e. let (a, b) = v.complete e in (w.ended ∙ a, nil-right g (left t) (sym b ∙ w.held));
}

taken : (n : ℕ) (p t : Pipe) (x : Received) → read_pipe n p p.cur ≡ (t, x) → Takes p t (bytes_of x)
taken n p t x e = subst (λ y. Takes p y.0 (bytes_of y.1)) e (read_pipe-Takes n p p.cur refl)

-- What a select of a closed end and a queue with room chooses.
chosen : Bool → Bool → Pipe → Pipe → Option (Pipe × Option PipeError)
chosen x y p q = if x then some (p, some closed_pipe) else if y then some (q, none) else none

chosen-queue : (x y : Bool) (p q t : Pipe) → chosen x y p q ≡ some (t, none) → (t ≡ q) × (y ≡ true)
unfolding chosen
chosen-queue true y p q t h = absurd (cc (ap (λ z. z.1) (some_injective h)))
chosen-queue false true p q t h = (sym (ap (λ z. z.0) (some_injective h)), refl)
chosen-queue false false p q t h = absurd (cc h)

chosen-closed :
    (x y : Bool) (p q t : Pipe) (e : PipeError) → chosen x y p q ≡ some (t, some e) → t ≡ p
unfolding chosen
chosen-closed true y p q t e h = sym (ap (λ z. z.0) (some_injective h))
chosen-closed false true p q t e h = absurd (cc (ap (λ z. z.1) (some_injective h)))
chosen-closed false false p q t e h = absurd (cc h)

sends-IsFifo :
    (slots : ℕ) (r : Run) (pick : Bool) (b : Bytes) (p : Pipe)
    → IsFifo slots r
    → r.pending ≡ some b
    → send_chunk pick b r.pipe ≡ some (p, none)
    → IsFifo slots (record r { pipe = p; pending = none; sent = r.sent ++ b })
unfolding send_chunk chosen
sends-IsFifo slots r pick b p v w h =
    let room = ltb (length r.pipe.queue) r.pipe.slots in
    let next : Pipe = record r.pipe { queue = r.pipe.queue ++ b ∷ [] } in
    let (e, y) = chosen-queue (r.pipe.closed && (pick || not room)) room r.pipe next p h in
    let live : r.pipe.ended ≡ false = elim v.writing [ inl n ↦ absurd (cc (n, w)) | inr o ↦ o ] in
    subst (λ x. IsFifo slots (record r { pipe = x; pending = none; sent = r.sent ++ b })) (sym e)
      (record {
        order =
            ap (λ x. x ++ b) v.order
            ∙ append_assoc r.got (left r.pipe) b
            ∙ ap (λ x. r.got ++ x)
                (append_assoc r.pipe.cur (concat r.pipe.queue) b
                  ∙ ap (λ x. r.pipe.cur ++ x) (sym (concat-append r.pipe.queue b)));
        same_slots = v.same_slots;
        bounded = omega (
          arith,
          ltb→lt (length r.pipe.queue) r.pipe.slots y,
          v.same_slots,
          length-append r.pipe.queue (b ∷ []),
        );
        writing = inl refl;
        complete = λ s. absurd (cc ((v.complete s).0, live));
      })

gives_up-IsFifo :
    (slots : ℕ) (r : Run) (pick : Bool) (b : Bytes) (p : Pipe) (e : PipeError)
    → IsFifo slots r
    → send_chunk pick b r.pipe ≡ some (p, some e)
    → IsFifo slots (record r { pipe = p; pending = none })
unfolding send_chunk chosen
gives_up-IsFifo slots r pick b p e v h =
    let room = ltb (length r.pipe.queue) r.pipe.slots in
    let same =
      chosen-closed (r.pipe.closed && (pick || not room)) room r.pipe
        (record r.pipe { queue = r.pipe.queue ++ b ∷ [] }) p e h in
    subst (λ x. IsFifo slots (record r { pipe = x; pending = none })) (sym same)
      (record {
        order = v.order;
        same_slots = v.same_slots;
        bounded = v.bounded;
        writing = inl refl;
        complete = v.complete;
      })

Step-IsFifo : (slots : ℕ) (r t : Run) → IsFifo slots r → Step r t → IsFifo slots t
Step-IsFifo slots r t v (begins_write b e o c) = record {
  order = v.order;
  same_slots = v.same_slots;
  bounded = v.bounded;
  writing = inr o;
  complete = v.complete;
}
Step-IsFifo slots r t v (sends pick b p w h) = sends-IsFifo slots r pick b p v w h
Step-IsFifo slots r t v (gives_up pick b p e w h) = gives_up-IsFifo slots r pick b p e v h
Step-IsFifo slots r t v (ends_write e n o) = record {
  order = v.order;
  same_slots = v.same_slots;
  bounded = v.bounded;
  writing = inl n;
  complete = λ s. absurd (cc ((v.complete s).0, o));
}
Step-IsFifo slots r t v (reads n p b h) =
    reads-IsFifo slots r p b v (taken n r.pipe p (bytes_read b) h)
Step-IsFifo slots r t v (stops_read n p e h) =
    let u = reads-IsFifo slots r p [] v (taken n r.pipe p (stops e) h) in
    record {
      order = u.order ∙ ap (λ x. x ++ left p) (append-nil r.got);
      same_slots = u.same_slots;
      bounded = u.bounded;
      writing = u.writing;
      complete = λ s.
          read_pipe-Drained n r.pipe p r.pipe.cur (h ∙ ap (λ x. (p, stops x)) (some_injective s));
    }
Step-IsFifo slots r t v (waits_read n p h) =
    let u = reads-IsFifo slots r p [] v (taken n r.pipe p waits h) in
    record {
      order = u.order ∙ ap (λ x. x ++ left p) (append-nil r.got);
      same_slots = u.same_slots;
      bounded = u.bounded;
      writing = u.writing;
      complete = u.complete;
    }
Step-IsFifo slots r t v closes_read = record {
  order = v.order;
  same_slots = v.same_slots;
  bounded = v.bounded;
  writing = v.writing;
  complete = v.complete;
}

-- In every run of a pipe what was written is what was read and what the pipe still holds, in order; the
-- channel never holds more writes than it has slots; and once a Read has returned io.EOF, CloseWrite
-- was called and nothing is left to read.
pub reach-IsFifo : (slots : ℕ) (r : Run) → Reach slots r → IsFifo slots r
reach-IsFifo slots r starts = record {
  order = refl;
  same_slots = refl;
  bounded = omega arith;
  writing = inl refl;
  complete = λ s. absurd (cc s);
}
reach-IsFifo slots r (then_step q t w s) = Step-IsFifo slots q r (reach-IsFifo slots q w) s
