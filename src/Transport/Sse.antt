-- ===== src/Transport/Sse.antt =====
-- api/utils/sse.go: `SSELineWriter`, which sends the whole lines of an output to the browser, and the
-- test of the origin of a websocket.
pub mod Chunks
use Prim.Native.Char.{Char, code}
use Prim.Native.String.{len, ◌++◌ as join}
use text.Mathlib.Text.{◌==◌, starts_with}
use dd_ui.Prelude.{
  ℕ, zero, suc, ◌+◌, Bool, ◌||◌, Option, none, some, String, List, [], ◌∷◌, ◌++◌, ◌==◌ as nat_eq,
  if◌then◌else◌,
}
use dd_ui.Git.Text.{trim_space}
use dd_ui.Compose.{cut}

-- `SSELineWriter`, with the writes to the response in their order.
pub record SseLineWriter : Type 0 where
  pub stream : String
  pub buf : String
  pub written : List String

-- The two writes for a line, for each line.
unfoldable pub frames : String → List String → List String
frames stream [] = []
frames stream (line ∷ lines) =
    join "event: " (join stream "\n") ∷ join "data: " (join line "\n\n") ∷ frames stream lines

-- The number of line ends in a text.
unfoldable pub breaks : String → ℕ
breaks String.[] = 0
breaks (String.◌∷◌ c s) = (if nat_eq (code c) 10 then 1 else 0) + breaks s

abbrev pub put_line : String → List String × String → List String × String
put_line line (lines, rest) = (line ∷ lines, rest)

-- The loop of `Write` on the buffer, by `n` rounds at most: the lines, and what stays.
unfoldable pub drain : ℕ → String → List String × String
unfolding cut
drain zero buf = ([], buf)
drain (suc n) buf = elim (cut 10 buf) [
  | none ↦ ([], buf)
  | some (line, rest) ↦ put_line line (drain n rest)
]

-- `Write`, with its result; as many rounds as the buffer has line ends.
unfoldable pub write : SseLineWriter → String → ℕ × SseLineWriter
unfolding drain breaks frames
write writer p =
    let buf = join writer.buf p in
    let drained = drain (breaks buf) buf in
    (
      len p,
      record {
        stream = writer.stream;
        buf = drained.1;
        written = writer.written ++ frames writer.stream drained.0;
      },
    )

-- Writes one after the other.
unfoldable pub write_each : SseLineWriter → List String → SseLineWriter
unfolding write
write_each writer [] = writer
write_each writer (p ∷ ps) = write_each (write writer p).1 ps

-- `CheckOrigin`, on the header `Origin` and the setting of the origin.
unfoldable pub check_origin : String → String → Bool
check_origin header setting =
    let origin = trim_space header in
    origin == ""
    || origin == trim_space setting
    || starts_with origin "http://localhost:"
    || starts_with origin "http://127.0.0.1:"
    || starts_with origin "https://localhost:"
    || starts_with origin "https://127.0.0.1:"
