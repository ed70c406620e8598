-- ===== src/Stdio/Drops.antt =====
-- src/stdio_transport.cpp: the count of the bytes in the write queue.
use cppmcp.Base.{
  ℕ, ◌+◌, ◌^◌, ◌<◌, ◌≡◌, refl, ap, ◌∙◌, Bool, true, false, List, [], ◌∷◌, ◌++◌, if◌then◌else◌,
  length, arith, if-split,
}
use cppmcp.WriteQueue.{add_size}
use cppmcp.Text.{Bytes}
use cppmcp.Stdio.{StdioTransport, over_limit, drop_front, front_written, send_data, write_turn}

abbrev pub total : List Bytes → ℕ
total [] = 0
total (item ∷ queue) = length item + total queue

total-snoc :
    (queue : List Bytes) (item : Bytes) → total (queue ++ item ∷ []) ≡ total queue + length item
total-snoc [] item = omega arith
total-snoc (x ∷ queue) item = omega (arith, total-snoc queue item)

-- The count is `excess` bytes more than the queue has.
abbrev pub Counts : (excess : ℕ) → StdioTransport → Type 0
Counts excess t = t.write_queue_bytes ≡ total t.write_queue + excess

choose : {A : Type 0} (b : Bool) (x y : A) → b ≡ true → (if b then x else y) ≡ x
choose b x y h = rw h refl

send_data-over :
    (item : Bytes) (t : StdioTransport)
    → t.write_stopping ≡ false
    → over_limit item t ≡ true
    → send_data item t ≡ record t {
      write_queue = drop_front t.write_queue ++ item ∷ [];
      write_queue_bytes = add_size t.write_queue_bytes (length item);
    }
unfolding send_data
send_data-over item t writing over =
    let after : List Bytes → StdioTransport = λ kept. record t {
      write_queue = kept ++ item ∷ [];
      write_queue_bytes = add_size t.write_queue_bytes (length item);
    } in
    let kept : List Bytes =
      (if over_limit item t then drop_front t.write_queue else t.write_queue) in
    if-split (λ r. r ≡ after (drop_front t.write_queue)) t.write_stopping t (after kept)
      (λ stopping. absurd (ground (arith, writing, stopping)))
      (λ _. ap after (choose (over_limit item t) _ _ over))

-- A text that finds the queue over its limit takes the place of the oldest one, but the bytes of that
-- one stay in the count: it is as many bytes too high as before, and those of the dropped text.
pub send_data-drops :
    (front item : Bytes) (queue : List Bytes) (excess : ℕ) (t : StdioTransport)
    → t.write_queue ≡ front ∷ queue
    → Counts excess t
    → t.write_stopping ≡ false
    → t.write_queue_bytes + length item < 2 ^ 64
    → t.max_queued_write_bytes < t.write_queue_bytes + length item
    → ((send_data item t).write_queue ≡ queue ++ item ∷ [])
      × Counts (excess + length front) (send_data item t)
send_data-drops front item queue excess t is_front counts writing fits full =
    let e = send_data-over item t writing (ground (arith, fits, full)) in
    let queued =
      ap (λ (r : StdioTransport). r.write_queue) e ∙ ap (λ q. drop_front q ++ item ∷ []) is_front in
    let counted = ap (λ (r : StdioTransport). r.write_queue_bytes) e in
    (
      queued,
      omega
          (arith, counted, counts, ap total is_front, ap total queued, total-snoc queue item, fits),
    )

-- The writer takes its texts off the count, but never what it is too high.
pub write_turn-Counts :
    (excess : ℕ) (t : StdioTransport)
    → Counts excess t
    → t.write_queue_bytes < 2 ^ 64
    → Counts excess (write_turn t)
unfolding write_turn
write_turn-Counts excess t counts fits = turn t.write_queue refl
  where
    turn : (queue : List Bytes) → t.write_queue ≡ queue → Counts excess (front_written queue t)
    turn [] e = counts
    turn (item ∷ queue) e = omega (arith, counts, fits, ap total e)

-- Texts that are sent with no turn of the writer between them.
unfoldable pub send_row : List Bytes → StdioTransport → StdioTransport
unfolding send_data
send_row [] t = t
send_row (item ∷ items) t = send_row items (send_data item t)

abbrev pub last_of : Bytes → List Bytes → Bytes
last_of item [] = item
last_of item (next ∷ items) = last_of next items

-- Once the count of queued bytes is too high by more than the limit, the queue has room for one text: of
-- a row of texts that the writer does not come between, only the last one stays, however small they
-- are, as long as the count does not reach 2 ^ 64.
pub send_row-last :
    (front item : Bytes) (items : List Bytes) (excess : ℕ) (t : StdioTransport)
    → t.write_queue ≡ front ∷ []
    → Counts excess t
    → t.write_stopping ≡ false
    → t.max_queued_write_bytes < excess
    → t.write_queue_bytes + total (item ∷ items) < 2 ^ 64
    → (send_row (item ∷ items) t).write_queue ≡ last_of item items ∷ []
unfolding send_row
send_row-last front item [] excess t is_front counts writing over fits =
    (send_data-drops front item [] excess t is_front counts writing (omega (arith, fits))
      (omega (arith, over, counts))).0
send_row-last front item (next ∷ items) excess t is_front counts writing over fits =
    let (queued, counts') =
      send_data-drops front item [] excess t is_front counts writing (omega (arith, fits))
        (omega (arith, over, counts)) in
    let e = send_data-over item t writing (ground (arith, over, counts, fits)) in
    send_row-last item next items (excess + length front) (send_data item t) queued counts'
      (ap (λ (r : StdioTransport). r.write_stopping) e ∙ writing)
      (omega (arith, over, ap (λ (r : StdioTransport). r.max_queued_write_bytes) e))
      (omega (arith, fits, ap (λ (r : StdioTransport). r.write_queue_bytes) e))
