-- ===== src/Pipe/Clients.antt =====
-- src/local_pipe_transport.cpp: which connections are registered.
use cppmcp.Base.{
  ℕ, suc, nat_eq, nat_beq, nat_beq_iff, ltb, ◌+◌, ◌≤◌, ◌<◌, ◌∙◌, ◌≡◌, refl, ap, Bool, true, false,
  not, length-append, List, [], ◌∷◌, ◌++◌, length, All, All-append, arith, Bool-cases, inl, inr,
  ◌⊎◌, if◌then◌else◌, if-split, Option-split, none, update, remove,
}
use cppmcp.Outcome.{parse_error}
use cppmcp.Json.{Json}
use cppmcp.Jsonrpc.Building.{make_error_response_null_id}
use cppmcp.Text.{Bytes, is_nil}
use cppmcp.Lines.{lines_of, strip_break}
use cppmcp.Http.Transport.{JsonText}
use cppmcp.Stdio.{Handled}
use cppmcp.Pipe.{
  LocalPipeTransport, PipeConnection, PipeMode, single_client, multi_client, enqueue_write,
  unregister_connection, set_active, set_buf, on_error, on_accept, write_all, handle_line,
  handle_read_completion, on_lines, on_chunk, write_each, send_message, close_each, stop,
}

abbrev pub pending : Bool → ℕ
pending true = 1
pending false = 0

-- The registered connections are active ones that have been accepted, and in the mode for one client
-- there is at most one, the connection that an accept waits for included.
pub record Kept (mode : PipeMode) (accepting : Bool) (connections : ℕ → PipeConnection) (next : ℕ)
    (registered : List ℕ) : Type 0 where
  pub active : All (λ conn. (connections conn).active ≡ true) registered
  pub accepted : All (λ conn. conn < next) registered
  pub single : (mode ≡ multi_client) ⊎ (pending accepting + length registered ≤ 1)

abbrev pub IsKept : LocalPipeTransport → Type 0
IsKept t = Kept t.mode t.accepting t.connections t.next_connection_id t.active_connections

active-remove :
    (f g : ℕ → PipeConnection) (conn : ℕ) (l : List ℕ)
    → ((k : ℕ) → nat_beq conn k ≡ false → (g k).active ≡ (f k).active)
    → All (λ k. (f k).active ≡ true) l
    → All (λ k. (g k).active ≡ true) (remove conn l)
active-remove f g conn [] others h = tt
active-remove f g conn (k ∷ l) others (p, h) = elim (Bool-cases (nat_beq conn k)) [
  | inl same ↦ rw same (active-remove f g conn l others h)
  | inr other ↦ rw other (others k other ∙ p, active-remove f g conn l others h)
]

All-remove : (P : ℕ → Type 0) (conn : ℕ) (l : List ℕ) → All P l → All P (remove conn l)
All-remove P conn [] h = tt
All-remove P conn (k ∷ l) (p, h) =
    if-split (All P) (nat_beq conn k) _ _ (λ _. All-remove P conn l h)
      (λ _. (p, All-remove P conn l h))

length-remove : (conn : ℕ) (l : List ℕ) → length (remove conn l) ≤ length l
length-remove conn [] = omega arith
length-remove conn (k ∷ l) = ground (arith, length-remove conn l)

fewer :
    (mode : PipeMode) (p n m : ℕ)
    → m ≤ n
    → (mode ≡ multi_client) ⊎ (p + n ≤ 1)
    → (mode ≡ multi_client) ⊎ (p + m ≤ 1)
fewer mode p n m le (inl multi) = inl multi
fewer mode p n m le (inr h) = inr (omega (arith, le, h))

-- An update of a connection that is as active as before.
active-update :
    (f : ℕ → PipeConnection) (conn : ℕ) (c : PipeConnection) (l : List ℕ)
    → c.active ≡ (f conn).active
    → All (λ k. (f k).active ≡ true) l
    → All (λ k. (update f conn c k).active ≡ true) l
active-update f conn c [] e h = tt
active-update f conn c (k ∷ l) e (p, h) = elim (Bool-cases (nat_beq conn k)) [
  | inl same ↦ (
    ap (λ (b : Bool). (if b then c else f k).active) same
        ∙ e
        ∙ ap (λ j. (f j).active) ((nat_beq_iff conn k).0 same)
        ∙ p,
    active-update f conn c l e h,
  )
  | inr other ↦
      (ap (λ (b : Bool). (if b then c else f k).active) other ∙ p, active-update f conn c l e h)
]

-- An update of a connection that is not among them.
active-fresh :
    (f : ℕ → PipeConnection) (next : ℕ) (c : PipeConnection) (l : List ℕ)
    → All (λ k. k < next) l
    → All (λ k. (f k).active ≡ true) l
    → All (λ k. (update f next c k).active ≡ true) l
active-fresh f next c [] below h = tt
active-fresh f next c (k ∷ l) (lt, below) (p, h) =
    (ground (arith, lt, p), active-fresh f next c l below h)

All-later : (next : ℕ) (l : List ℕ) → All (λ k. k < next) l → All (λ k. k < suc next) l
All-later next [] h = tt
All-later next (k ∷ l) (lt, h) = (omega (arith, lt), All-later next l h)

written-IsKept :
    (conn : ℕ) (item : Bytes) (t : LocalPipeTransport)
    → IsKept t
    → IsKept (enqueue_write conn item t)
unfolding enqueue_write
written-IsKept conn item t kept = kept

on_error-IsKept : (conn : ℕ) (t : LocalPipeTransport) → IsKept t → IsKept (on_error conn t)
unfolding on_error unregister_connection
on_error-IsKept conn t kept =
    if-split IsKept (t.connections conn).active
      (unregister_connection conn (set_active false conn t)) t
      (λ _. record {
        active =
            active-remove t.connections
              (unregister_connection conn (set_active false conn t)).connections conn
              t.active_connections (λ k other. ground (arith, other)) kept.active;
        accepted = All-remove _ conn t.active_connections kept.accepted;
        single =
            fewer t.mode (pending t.accepting) (length t.active_connections) _
              (length-remove conn t.active_connections) kept.single;
      })
      (λ _. kept)

on_accept-IsKept : (t : LocalPipeTransport) → t.accepting ≡ true → IsKept t → IsKept (on_accept t)
unfolding on_accept
on_accept-IsKept t waits kept =
    if-split IsKept (not t.running) _ _
      (λ _. record {
        active = kept.active;
        accepted = kept.accepted;
        single = no_accept kept.single;
      })
      (λ _. record {
        active =
            All-append _ t.active_connections (t.next_connection_id ∷ [])
              (active-fresh t.connections t.next_connection_id _ t.active_connections kept.accepted
                kept.active)
              (ground arith, tt);
        accepted =
            All-append _ t.active_connections (t.next_connection_id ∷ [])
              (All-later t.next_connection_id t.active_connections kept.accepted) (omega arith, tt);
        single = one_more t.mode kept.single;
      })
  where
    no_accept :
        (t.mode ≡ multi_client) ⊎ (pending t.accepting + length t.active_connections ≤ 1)
        → (t.mode ≡ multi_client) ⊎ (0 + length t.active_connections ≤ 1)
    no_accept (inl multi) = inl multi
    no_accept (inr h) = inr (omega (arith, h))

    one_more :
        (mode : PipeMode)
        → (mode ≡ multi_client) ⊎ (pending t.accepting + length t.active_connections ≤ 1)
        → (mode ≡ multi_client)
          ⊎ (pending (elim mode [ single_client ↦ false | multi_client ↦ true ])
                + length (t.active_connections ++ t.next_connection_id ∷ [])
              ≤ 1)
    one_more multi_client h = inl refl
    one_more single_client (inl never) = absurd (ground arith)
    one_more single_client (inr h) = inr (
        omega (
          arith,
          h,
          ap pending waits,
          length-append t.active_connections (t.next_connection_id ∷ []),
        ))

close_each-mode : (conns : List ℕ) (t : LocalPipeTransport) → (close_each conns t).mode ≡ t.mode
unfolding close_each
close_each-mode [] t = refl
close_each-mode (conn ∷ conns) t = close_each-mode conns _

stop-IsKept : (t : LocalPipeTransport) → IsKept t → IsKept (stop t)
unfolding stop
stop-IsKept t kept =
    if-split IsKept t.running
      (record (close_each t.active_connections (record t { running = false })) {
        active_connections = [];
        accepting = false;
      })
      t (λ _. record { active = tt; accepted = tt; single = inr (omega arith) }) (λ _. kept)

module _ {V : Type 0} ⦃json : Json V⦄ (text : JsonText V) where
  write_all-IsKept :
      (conn : ℕ) (responses : List V) (t : LocalPipeTransport)
      → IsKept t
      → IsKept (write_all text conn responses t)
  unfolding write_all enqueue_write
  write_all-IsKept conn [] t kept = kept
  write_all-IsKept conn (resp ∷ responses) t kept =
      write_all-IsKept conn responses (enqueue_write conn (text.dump resp) t) kept

  write_each-IsKept :
      (conns : List ℕ) (item : Bytes) (t : LocalPipeTransport)
      → IsKept t
      → IsKept (write_each text conns item t)
  unfolding write_each
  write_each-IsKept [] item t kept = kept
  write_each-IsKept (conn ∷ conns) item t kept = write_each-IsKept conns item _ (
      if-split IsKept (t.connections conn).active (enqueue_write conn item t) t
        (λ _. written-IsKept conn item t kept) (λ _. kept))

  handle_line-IsKept :
      (handler : V → Handled V) (conn : ℕ) (line : Bytes) (t : LocalPipeTransport)
      → IsKept t
      → IsKept (handle_line text handler conn line t)
  unfolding handle_line enqueue_write
  handle_line-IsKept handler conn line t kept =
      Option-split IsKept (text.parse_text line) _ _ (λ _. kept)
        (λ message _.
          let ran = write_all-IsKept conn (handler message).responses t kept in
          if-split IsKept t.has_message_handler _ _
            (λ _. if-split IsKept (handler message).returned _ _ (λ _. ran) (λ _. ran)) (λ _. kept))

  handle_read_completion-IsKept :
      (handler : V → Handled V) (conn : ℕ) (line : Bytes) (t : LocalPipeTransport)
      → IsKept t
      → IsKept (handle_read_completion text handler conn line t)
  unfolding handle_read_completion
  handle_read_completion-IsKept handler conn line t kept =
      if-split IsKept (ltb t.max_line_size (length line)) _ _
        (λ _.
          on_error-IsKept conn
            (enqueue_write conn
              (text.dump (make_error_response_null_id parse_error "Message too large" none)) t)
            (written-IsKept conn
              (text.dump (make_error_response_null_id parse_error "Message too large" none)) t
              kept))
        (λ _.
          if-split IsKept (is_nil (strip_break line)) _ _ (λ _. kept)
            (λ _. handle_line-IsKept handler conn (strip_break line) t kept))

  on_lines-IsKept :
      (handler : V → Handled V) (conn : ℕ) (lines : List Bytes) (t : LocalPipeTransport)
      → IsKept t
      → IsKept (on_lines text handler conn lines t)
  unfolding on_lines
  on_lines-IsKept handler conn [] t kept = kept
  on_lines-IsKept handler conn (line ∷ lines) t kept = on_lines-IsKept handler conn lines _ (
      if-split IsKept (t.connections conn).active (handle_read_completion text handler conn line t)
        t (λ _. handle_read_completion-IsKept handler conn line t kept) (λ _. kept))

  on_chunk-IsKept :
      (handler : V → Handled V) (conn : ℕ) (chunk : Bytes) (t : LocalPipeTransport)
      → IsKept t
      → IsKept (on_chunk text handler conn chunk t)
  unfolding on_chunk
  on_chunk-IsKept handler conn chunk t kept =
      let (lines, left) = lines_of ((t.connections conn).read_buf ++ chunk) in
      on_lines-IsKept handler conn lines (set_buf left conn t) (record {
        active = active-update t.connections conn _ t.active_connections refl kept.active;
        accepted = kept.accepted;
        single = kept.single;
      })

  -- An event of the transport's run; an accept completes only if one is pending.
  pub data Step (t : LocalPipeTransport) : LocalPipeTransport → Type 0 where
    accepts : t.accepting ≡ true → Step t (on_accept t)
    receives :
        (handler : V → Handled V) (conn : ℕ) (chunk : Bytes)
        → Step t (on_chunk text handler conn chunk t)
    fails : (conn : ℕ) → Step t (on_error conn t)
    sends : (message : V) → Step t (send_message text message t)
    stops : Step t (stop t)

  pub data Reach (start : LocalPipeTransport) : LocalPipeTransport → Type 0 where
    here : Reach start start
    next : {t t' : LocalPipeTransport} → Reach start t → Step t t' → Reach start t'

  Step-IsKept : {t t' : LocalPipeTransport} → IsKept t → Step t t' → IsKept t'
  unfolding send_message
  Step-IsKept {t} kept (accepts waits) = on_accept-IsKept t waits kept
  Step-IsKept {t} kept (receives handler conn chunk) = on_chunk-IsKept handler conn chunk t kept
  Step-IsKept {t} kept (fails conn) = on_error-IsKept conn t kept
  Step-IsKept {t} kept (sends message) =
      write_each-IsKept t.active_connections (text.dump message) t kept
  Step-IsKept {t} kept stops = stop-IsKept t kept

  -- In every run the registered connections are active ones, and a transport for a single client never
  -- has more than one connection, or more than one to come.
  pub Reach-IsKept : {start t : LocalPipeTransport} → IsKept start → Reach start t → IsKept t
  Reach-IsKept kept here = kept
  Reach-IsKept kept (next {t} reach step) = Step-IsKept {t = t} (Reach-IsKept kept reach) step
