-- ===== src/Transport/Tests.antt =====
-- Runs of the functions of Transport.
use dd_ui.Prelude.{◌≡◌, refl, [], ◌∷◌}
use dd_ui.Transport.Sse.{SseLineWriter, write, write_each, drain, frames, breaks}
use dd_ui.Transport.Sse.Chunks.{together, write_each-together}
use dd_ui.Compose.{cut}

abbrev stdout : SseLineWriter
stdout = record { stream = "stdout"; buf = ""; written = [] }

two_lines : (write stdout "a\nb\nc").1 ≡ (record {
  stream = "stdout";
  buf = "c";
  written = "event: stdout\n" ∷ "data: a\n\n" ∷ "event: stdout\n" ∷ "data: b\n\n" ∷ [];
})
unfolding write drain frames breaks cut
two_lines = refl

write_each-together_example :
    write_each stdout ("a\nb" ∷ "" ∷ "c\n" ∷ [])
    ≡ (write stdout (together "a\nb" ("" ∷ "c\n" ∷ []))).1
write_each-together_example = write_each-together stdout "a\nb" ("" ∷ "c\n" ∷ [])
