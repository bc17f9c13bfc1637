-- ===== src/Writer/Wire.antt =====
-- The writer goroutine at one end of a connection and the reading loop of `listen` at the other
-- (server/client.go).
use nvda_remote_server.Common.{
  ℕ, ◌≡◌, ◌≢◌, refl, sym, ap, ◌∙◌, ◌⊎◌, inl, inr, Bool, false, Option, none, List, [], ◌∷◌, ◌++◌,
  Bytes, All, append_assoc, append-nil, bytes_eq, subst,
}
use nvda_remote_server.Common.Int.{pos, int_leb}
use nvda_remote_server.Client.Listen.{read_failed, listen}
use nvda_remote_server.Client.Framing.{
  IsLine, stream, nonempty, up_to_long, any_long, received_of, listen-stream,
}
use nvda_remote_server.Writer.{WriterEvent, message, elapsed, queue_closed, write_all, new_writer}
use nvda_remote_server.Writer.Order.{framed}
use nvda_remote_server.Writer.Delivery.{write_all-IsBegun}
use nvda_remote_server.Writer.Alive.{IsOpen, write_all_delivers}

-- The messages among the events, without the sentinels.
abbrev pub messages : List WriterEvent → List Bytes
messages [] = []
messages (message [] more ∷ es) = messages es
messages (message (x ∷ b) more ∷ es) = (x ∷ b) ∷ messages es
messages (elapsed ∷ es) = messages es
messages (queue_closed ∷ es) = messages es

-- The message of an event is one line.
abbrev pub IsLineEvent : WriterEvent → Type 0
IsLineEvent (message b more) = IsLine b
IsLineEvent elapsed = Unit
IsLineEvent queue_closed = Unit

framed-stream : (es : List WriterEvent) → framed b'\n' es ≡ stream (messages es)
framed-stream [] = refl
framed-stream (message [] more ∷ es) = framed-stream es
framed-stream (message (x ∷ b) more ∷ es) =
    append_assoc (x ∷ b) (b'\n' ∷ []) (framed b'\n' es)
    ∙ ap (λ t. (x ∷ b) ++ (b'\n' ∷ t)) (framed-stream es)
framed-stream (elapsed ∷ es) = framed-stream es
framed-stream (queue_closed ∷ es) = framed-stream es

messages-IsLine : (es : List WriterEvent) → All IsLineEvent es → All IsLine (messages es)
messages-IsLine [] h = tt
messages-IsLine (message [] more ∷ es) (_, h) = messages-IsLine es h
messages-IsLine (message (x ∷ b) more ∷ es) (hb, h) = (hb, messages-IsLine es h)
messages-IsLine (elapsed ∷ es) (_, h) = messages-IsLine es h
messages-IsLine (queue_closed ∷ es) (_, h) = messages-IsLine es h

nonempty-messages : (es : List WriterEvent) → nonempty (messages es) ≡ messages es
nonempty-messages [] = refl
nonempty-messages (message [] more ∷ es) = nonempty-messages es
nonempty-messages (message (x ∷ b) more ∷ es) = ap (λ ms. (x ∷ b) ∷ ms) (nonempty-messages es)
nonempty-messages (elapsed ∷ es) = nonempty-messages es
nonempty-messages (queue_closed ∷ es) = nonempty-messages es

up_to_long-unlimited : (ms : List Bytes) → up_to_long (pos 0) ms ≡ ms
unfolding int_leb
up_to_long-unlimited [] = refl
up_to_long-unlimited (m ∷ ms) = ap (λ t. m ∷ t) (up_to_long-unlimited ms)

any_long-unlimited : (ms : List Bytes) → any_long (pos 0) ms ≡ false
unfolding int_leb
any_long-unlimited [] = refl
any_long-unlimited (m ∷ ms) = any_long-unlimited ms

-- Without a limit no line is too long.
unlimited : (ms : List Bytes) → received_of (pos 0) ms ≡ (nonempty ms, read_failed)
unlimited ms = rw (up_to_long-unlimited ms, any_long-unlimited ms) refl

-- Where the connection takes every write and the messages are nonempty lines, what the writer has sent
-- when it ends after a graceful close is read back by a `listen` without a limit as exactly the
-- messages, in order, and nothing is left over.
pub listen-write_all :
    (es : List WriterEvent) (more : Bool) (answers : ℕ → Option ℕ)
    → ((k : ℕ) → answers k ≡ none)
    → All IsOpen es
    → All IsLineEvent es
    → listen b'\n'
        (pos 0)
        (write_all b'\n' (es ++ (message [] more ∷ [])) (new_writer answers)).sent
      ≡ (messages es, read_failed)
listen-write_all es more answers accepts opens lines =
    ap (listen b'\n' (pos 0)) (
      (write_all_delivers b'\n' es more answers accepts opens).0
      ∙ framed-stream es
      ∙ sym (append-nil (stream (messages es))))
    ∙ listen-stream (pos 0) (messages es) [] (messages-IsLine es lines) tt
    ∙ unlimited (messages es)
    ∙ ap (λ ms. (ms, read_failed)) (nonempty-messages es)

-- A beginning of a line and what follows it either ends in the line or has all of it.
cut_line :
    (m t p rest : Bytes)
    → p ++ rest ≡ m ++ (b'\n' ∷ t)
    → ((q : Bytes) × (p ++ q ≡ m)) ⊎ ((p' : Bytes) × (p ≡ m ++ (b'\n' ∷ p')) × (p' ++ rest ≡ t))
cut_line m t [] rest e = inl (m, refl)
cut_line [] t (c ∷ p) rest e = inr (p, cc, cc)
cut_line (d ∷ m) t (c ∷ p) rest e = elim (cut_line m t p rest cc) [
  | inl (q, f) ↦ inl (q, cc)
  | inr (p', f, g) ↦ inr (p', cc, g)
]

same_head : (c d : ℕ) (s t : Bytes) → c ∷ s ≡ d ∷ t → c ≡ d
same_head c d s t e = cc

same_tail : (c d : ℕ) (s t : Bytes) → c ∷ s ≡ d ∷ t → s ≡ t
same_tail c d s t e = cc

no_cons : {P : Type 0} → (c : ℕ) (s : Bytes) → c ∷ s ≡ [] → P
no_cons c s e = cc

IsLine-beginning : (p q m : Bytes) → p ++ q ≡ m → IsLine m → IsLine p
IsLine-beginning [] q m e h = tt
IsLine-beginning (c ∷ p) q [] e h = no_cons c (p ++ q) e
IsLine-beginning (c ∷ p) q (d ∷ m) e (hd, h) = (
  subst (λ b. b ≢ b'\n') (sym (same_head c d (p ++ q) m e)) hd,
  IsLine-beginning p q m (same_tail c d (p ++ q) m e) h,
)

-- A beginning of lines is some of the lines and an unfinished one.
record IsCut (ms : List Bytes) (p : Bytes) : Type 0 where
  whole : List Bytes
  later : List Bytes
  unfinished : Bytes
  parts : whole ++ later ≡ ms
  text : p ≡ stream whole ++ unfinished
  lines : All IsLine whole
  line : IsLine unfinished

beginning-IsCut :
    (ms : List Bytes) (p rest : Bytes) → All IsLine ms → p ++ rest ≡ stream ms → IsCut ms p
beginning-IsCut [] [] rest h e = record {
  whole = [];
  later = [];
  unfinished = [];
  parts = refl;
  text = refl;
  lines = tt;
  line = tt;
}
beginning-IsCut [] (c ∷ p) rest h e = no_cons c (p ++ rest) e
beginning-IsCut (m ∷ ms) p rest (hm, h) e = elim (cut_line m (stream ms) p rest e) [
  | inl (q, f) ↦ record {
    whole = [];
    later = m ∷ ms;
    unfinished = p;
    parts = refl;
    text = refl;
    lines = tt;
    line = IsLine-beginning p q m f hm;
  }
  | inr (p', f, g) ↦
      let more = beginning-IsCut ms p' rest h g in
      record {
        whole = m ∷ more.whole;
        later = more.later;
        unfinished = more.unfinished;
        parts = ap (λ t. m ∷ t) more.parts;
        text =
            f
            ∙ ap (λ t. m ++ (b'\n' ∷ t)) more.text
            ∙ sym (append_assoc m (b'\n' ∷ stream more.whole) more.unfinished);
        lines = (hm, more.lines);
        line = more.line;
      }
]

-- `received` is a beginning of `sent`.
abbrev pub IsBeginningOf : List Bytes → List Bytes → Type 0
IsBeginningOf sent received = (later : List Bytes) × (received ++ later ≡ sent)

nonempty-append : (ms ns : List Bytes) → nonempty (ms ++ ns) ≡ nonempty ms ++ nonempty ns
nonempty-append [] ns = refl
nonempty-append ([] ∷ ms) ns = nonempty-append ms ns
nonempty-append ((c ∷ m) ∷ ms) ns = ap (λ t. (c ∷ m) ∷ t) (nonempty-append ms ns)

-- Whatever the connection answers to the writes of the server, and whenever the timer fires: if the
-- messages are lines, then what has been sent is read back by a `listen` without a limit as a beginning
-- of the messages, whole and in order. A message that was sent in part is never taken for a message.
pub listen-IsBeginningOf :
    (es : List WriterEvent) (answers : ℕ → Option ℕ)
    → All IsLineEvent es
    → IsBeginningOf
        (messages es)
        (listen b'\n' (pos 0) (write_all b'\n' es (new_writer answers)).sent).0
listen-IsBeginningOf es answers h =
    let (rest, begun) = write_all-IsBegun b'\n' es answers in
    let c =
      beginning-IsCut (messages es) (write_all b'\n' es (new_writer answers)).sent rest
        (messages-IsLine es h) (begun ∙ framed-stream es) in
    (
      nonempty c.later,
      ap (λ t. (listen b'\n' (pos 0) t).0 ++ nonempty c.later) c.text
          ∙ ap (λ r. r.0 ++ nonempty c.later)
              (listen-stream (pos 0) c.whole c.unfinished c.lines c.line ∙ unlimited c.whole)
          ∙ sym (nonempty-append c.whole c.later)
          ∙ ap nonempty c.parts
          ∙ nonempty-messages es,
    )
