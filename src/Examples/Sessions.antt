-- ===== src/Examples/Sessions.antt =====
-- Bytes that a client sends, and an interleaving of a server's goroutines, with what the theorems on
-- them say there.
use nvda_remote_server.Common.{
  ◌≡◌, ◌≢◌, refl, true, false, List, [], ◌∷◌, ◌++◌, Bytes, codes, All, ok, panic, arith,
}
use nvda_remote_server.Common.Int.{pos, int_leb}
use nvda_remote_server.Client.Listen.{read_bytes, is_too_long, listen, too_long}
use nvda_remote_server.Client.Framing.{stream, IsLine, received_of, listen-stream}
use nvda_remote_server.Lifecycle.{
  Running, listened, wg_done, cancels, closes, stops, accepts, adds, waits, Reachable, here, after,
}
use nvda_remote_server.Lifecycle.Shutdown.{IsCounted, step-IsCounted}

-- The second line is empty, and the third one too long for a limit of 3.
abbrev lines : List Bytes
lines = codes "abc" ∷ [] ∷ codes "abcd" ∷ codes "a" ∷ []

lines-IsLine : All IsLine lines
lines-IsLine = (
  ((λ e. ground arith), ((λ e. ground arith), ((λ e. ground arith), tt))),
  (
    tt,
    (
      (
        (λ e. ground arith),
        ((λ e. ground arith), ((λ e. ground arith), ((λ e. ground arith), tt))),
      ),
      (((λ e. ground arith), tt), tt),
    ),
  ),
)

listen-stream_example :
    listen b'\n' (pos 3) (stream lines ++ codes "ab") ≡ received_of (pos 3) lines
listen-stream_example =
    listen-stream (pos 3) lines (codes "ab") lines-IsLine
      ((λ e. ground arith), ((λ e. ground arith), tt))

lines_read : received_of (pos 3) lines ≡ (codes "abc" ∷ [], too_long)
unfolding int_leb
lines_read = refl

-- One character of two bytes, where one is allowed.
bytes_counted : (listen b'\n' (pos 1) (0xc3 ∷ 0xa9 ∷ b'\n' ∷ [])).1 ≡ too_long
unfolding listen read_bytes is_too_long int_leb
bytes_counted = refl

-- A signal arrives while the loop of `accept` holds a connection.
abbrev stopping : Running
stopping = record listened { pending = true; cancelled = true; listening = false }

stopping-Reachable : Reachable stopping
unfolding listened
stopping-Reachable = after (after (after here (accepts refl refl refl)) cancels) (closes refl refl)

step-IsCounted_example :
    (ok (record stopping { stopper = false; counter = 0 }) ≢ panic)
    × ((s' : Running)
        → ok (record stopping { stopper = false; counter = 0 }) ≡ ok s'
        → IsCounted s')
unfolding listened wg_done
step-IsCounted_example =
    step-IsCounted stopping (ok (record stopping { stopper = false; counter = 0 }))
      stopping-Reachable (stops refl refl)

-- `Wait` returns before the connection that was accepted is a client.
late_client :
    Reachable (record stopping { stopper = false; waited = true; pending = false; clients = 1 })
unfolding listened wg_done
late_client = after (after (after stopping-Reachable (stops refl refl)) (waits refl)) (adds refl)
