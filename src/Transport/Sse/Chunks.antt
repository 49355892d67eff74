-- ===== src/Transport/Sse/Chunks.antt =====
-- api/utils/sse.go: what is sent does not depend on how the output is cut into writes.
use Prim.Native.Char.{Char, code}
use Prim.Native.String.append
use Prim.Native.String.{◌++◌ as join}
use text.Mathlib.TextLemmas.{append_assoc as join_assoc}
use mathlib.Core.Path.{subst}
use mathlib.Core.List.{append_assoc}
use dd_ui.Prelude.{
  ℕ, zero, suc, ◌≡◌, ◌∙◌, refl, sym, ap, inl, inr, false, Option, none, some, String, List, [], ◌∷◌,
  ◌++◌, arith, Bool-cases, Option-cases, ◌==◌ as nat_eq, if◌then◌else◌,
}
use dd_ui.Compose.{cut, further}
use dd_ui.Transport.Sse.{SseLineWriter, frames, breaks, put_line, drain, write, write_each}

-- A character more at the front of the first line, or of the rest where there is no line.
abbrev put_front : Char → List String × String → List String × String
put_front c ([], rest) = ([], String.◌∷◌ c rest)
put_front c (line ∷ lines, rest) = (String.◌∷◌ c line ∷ lines, rest)

-- The whole lines of a text and what stands after them, read by characters.
unfoldable lines_of : String → List String × String
lines_of String.[] = ([], "")
lines_of (String.◌∷◌ c s) =
    let read = lines_of s in if nat_eq (code c) 10 then put_line "" read else put_front c read

-- What a cut at a line end says of the lines.
abbrev Reads : String → Option (String × String) → Type 0
Reads s none = lines_of s ≡ ([], s)
Reads s (some (line, rest)) =
    (lines_of s ≡ put_line line (lines_of rest)) × (breaks s ≡ suc (breaks rest))

further-Reads :
    (c : Char) (s : String) (o : Option (String × String))
    → nat_eq (code c) 10 ≡ false
    → Reads s o
    → Reads (String.◌∷◌ c s) (further c o)
unfolding lines_of breaks
further-Reads c s none e h = rw e (ap (put_front c) h)
further-Reads c s (some (line, rest)) e (h, k) = (rw e (ap (put_front c) h), rw e (omega arith))

cut-Reads : (s : String) → Reads s (cut 10 s)
unfolding cut lines_of breaks
cut-Reads String.[] = refl
cut-Reads (String.◌∷◌ c s) = elim (Bool-cases (nat_eq (code c) 10)) [
  | inl e ↦ rw e (rw (e, lines_of) refl, rw (e, breaks) (omega arith))
  | inr e ↦ rw e (further-Reads c s (cut 10 s) e (cut-Reads s))
]

drain-lines_of : (n : ℕ) (s : String) → breaks s ≡ n → drain n s ≡ lines_of s
unfolding drain
drain-lines_of zero s h = elim (Option-cases (cut 10 s)) [
  | inl e ↦ sym (subst (Reads s) e (cut-Reads s))
  | inr ((line, rest), e) ↦
      let cut_at = subst (Reads s) e (cut-Reads s) in absurd (omega (arith, cut_at.1, h))
]
drain-lines_of (suc n) s h = elim (Option-cases (cut 10 s)) [
  | inl e ↦ rw (e, drain) (sym (subst (Reads s) e (cut-Reads s)))
  | inr ((line, rest), e) ↦
      let cut_at = subst (Reads s) e (cut-Reads s) in
      let less = drain-lines_of n rest (omega (arith, cut_at.1, h)) in
      rw (e, drain) (ap (put_line line) less ∙ sym cut_at.0)
]

-- The lines of a text that goes on: those of its start, and those of its rest with what follows.
abbrev go_on : List String × String → String → List String × String
go_on (lines, rest) t = let read = lines_of (join rest t) in (lines ++ read.0, read.1)

go_on-put_front :
    (c : Char) (read : List String × String) (t : String)
    → nat_eq (code c) 10 ≡ false
    → go_on (put_front c read) t ≡ put_front c (go_on read t)
unfolding lines_of
go_on-put_front c ([], rest) t e = rw (append.cons c rest t) (rw (e, lines_of) refl)
go_on-put_front c (line ∷ lines, rest) t e = refl

lines_of-join : (s t : String) → lines_of (join s t) ≡ go_on (lines_of s) t
unfolding lines_of
lines_of-join String.[] t = refl
lines_of-join (String.◌∷◌ c s) t = elim (Bool-cases (nat_eq (code c) 10)) [
  | inl e ↦
      ap lines_of (append.cons c s t) ∙ rw (e, lines_of) (ap (put_line "") (lines_of-join s t))
  | inr e ↦
      ap lines_of (append.cons c s t)
      ∙ rw (e, lines_of)
          (ap (put_front c) (lines_of-join s t) ∙ sym (go_on-put_front c (lines_of s) t e))
]

frames-append :
    (stream : String) (xs ys : List String)
    → frames stream (xs ++ ys) ≡ frames stream xs ++ frames stream ys
unfolding frames
frames-append stream [] ys = refl
frames-append stream (x ∷ xs) ys = rw (frames-append stream xs ys) refl

-- The writer after the lines of a text.
abbrev after : SseLineWriter → List String × String → SseLineWriter
after writer (lines, rest) = record {
  stream = writer.stream;
  buf = rest;
  written = writer.written ++ frames writer.stream lines;
}

write-lines_of :
    (writer : SseLineWriter) (p : String)
    → (write writer p).1 ≡ after writer (lines_of (join writer.buf p))
unfolding write
write-lines_of writer p =
    let buf = join writer.buf p in ap (after writer) (drain-lines_of (breaks buf) buf refl)

after-go_on :
    (writer : SseLineWriter) (read : List String × String) (t : String)
    → after (after writer read) (lines_of (join read.1 t)) ≡ after writer (go_on read t)
after-go_on writer (lines, rest) t =
    let more = lines_of (join rest t) in
    ap (λ w. record { stream = writer.stream; buf = more.1; written = w })
      (append_assoc writer.written (frames writer.stream lines) (frames writer.stream more.0)
        ∙ ap (λ fs. writer.written ++ fs) (sym (frames-append writer.stream lines more.0)))

write-write :
    (writer : SseLineWriter) (p q : String)
    → (write (write writer p).1 q).1 ≡ (write writer (join p q)).1
write-write writer p q =
    let read = lines_of (join writer.buf p) in
    ap (λ w. (write w q).1) (write-lines_of writer p)
    ∙ write-lines_of (after writer read) q
    ∙ after-go_on writer read q
    ∙ ap (after writer) (sym (lines_of-join (join writer.buf p) q))
    ∙ ap (λ u. after writer (lines_of u)) (join_assoc writer.buf p q)
    ∙ sym (write-lines_of writer (join p q))

-- Pieces of an output put together.
abbrev pub together : String → List String → String
together p [] = p
together p (q ∷ qs) = join p (together q qs)

-- An output leaves the same writes to the response and the same buffer however it is cut into pieces:
-- one `Write` after the other does what a single `Write` of all of it does.
pub write_each-together :
    (writer : SseLineWriter) (p : String) (ps : List String)
    → write_each writer (p ∷ ps) ≡ (write writer (together p ps)).1
unfolding write_each
write_each-together writer p [] = refl
write_each-together writer p (q ∷ qs) =
    write_each-together (write writer p).1 q qs ∙ write-write writer p (together q qs)
