-- ===== src/Stdio/Chunks.antt =====
-- src/stdio_transport.cpp: what is done with the bytes of stdin does not depend on how they arrive.
use mathlib.Core.List.{append_assoc}
use cppmcp.Base.{◌≡◌, refl, sym, ap, ◌∙◌, List, [], ◌∷◌, ◌++◌}
use cppmcp.Json.{Json}
use cppmcp.Text.{Bytes}
use cppmcp.Lines.{lines_of}
use cppmcp.Lines.Framing.{lines_of-append}
use cppmcp.Http.Transport.{JsonText}
use cppmcp.Stdio.{StdioTransport, Handled, on_lines, on_chunk}

module _ {V : Type 0} ⦃json : Json V⦄ (text : JsonText V) where
  on_lines-append :
      (handler : V → Handled V) (xs ys : List Bytes) (t : StdioTransport)
      → on_lines text handler (xs ++ ys) t ≡ on_lines text handler ys (on_lines text handler xs t)
  unfolding on_lines
  on_lines-append handler [] ys t = refl
  on_lines-append handler (x ∷ xs) ys t = on_lines-append handler xs ys _

  -- Two chunks one after the other do what both do as one: the messages that are handled, the responses
  -- and their order, an oversized line that ends it all, and the bytes that wait for their newline.
  pub on_chunk-append :
      (handler : V → Handled V) (a b : Bytes) (state : Bytes × StdioTransport)
      → on_chunk text handler b (on_chunk text handler a state)
        ≡ on_chunk text handler (a ++ b) state
  unfolding on_chunk
  on_chunk-append handler a b (read_buf, t) =
      let (xs, left) = lines_of (read_buf ++ a) in
      let (ys, left') = lines_of (left ++ b) in
      let e = ap lines_of (sym (append_assoc read_buf a b)) ∙ lines_of-append (read_buf ++ a) b in
      sym (
        ap (λ (r : List Bytes × Bytes). (r.1, on_lines text handler r.0 t)) e
        ∙ ap (λ r. (left', r)) (on_lines-append handler xs ys t))
