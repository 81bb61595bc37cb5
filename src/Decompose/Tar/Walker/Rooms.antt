-- ===== src/Decompose/Tar/Walker/Rooms.antt =====
-- The buffers of the walker stay within their ends, and its counters do not underflow.
use async_chunker.Decompose.Tar.Fields.{block_len, c_string}
use async_chunker.Decompose.Tar.Pax.{W, Overrides, pax_loop}
use async_chunker.Decompose.Tar.Pax.Names.{Fits, Pending, Finally, pax_loop-Pending}
use async_chunker.Decompose.Tar.Pax.Records.{fuel_suffices}
use async_chunker.Decompose.Tar.Walker.{
  override_max, TarEvent, nothing, OverrideKind, pax_next, pax_global, gnu_name, gnu_link, State,
  header, first_zero, ended, payload, override_data, TarWalker, new, push, step, payload_byte,
  override_byte, override_done, apply_override, with_buffer, pax_result,
}
use async_chunker.Decompose.Tar.Walker.Members.{pushes}
use async_chunker.Prelude.{
  ℕ, zero, suc, ◌+◌, ◌≤◌, ◌<◌, ◌≢◌, refl, Option, none, some, List, [], ◌∷◌, ◌++◌, arith, length,
  Bytes, ◌==◌, leb, not, ◌&&◌, ◌-◌, length-append, if_cases,
}
use async_chunker.Result.{ok, Ensures, Ensures-bind, ◌>>=◌}
use async_chunker.Decompose.Tar.Walker.Room.{Room, InRoom, Safe, header_byte-Safe}

-- What every byte of a payload and of an override leaves alone.
abbrev Around : TarWalker → Type 0
Around w =
    (length w.block < block_len)
    × Fits override_max w.overrides.path
    × Fits override_max w.overrides.link

payload_byte-Safe :
    (w : TarWalker) (r p b : ℕ)
    → Around w
    → Room (payload r p) (length w.overrides.buffer)
    → Ensures Safe (payload_byte w r p b)
unfolding payload_byte Safe
payload_byte-Safe w zero p b (block, path, link) (due, small, empty) =
    if_cases (Ensures Safe) (not (b == 0)) _ _ (λ _. tt)
      (λ _. (
        block,
        path,
        link,
        if_cases (λ (s : State). Room s (length w.overrides.buffer)) (p - 1 == 0) _ _ (λ _. empty)
            (λ more. (ground arith, omega arith, empty)),
      ))
payload_byte-Safe w (suc r) p b (block, path, link) (due, small, empty) = (
  block,
  path,
  link,
  if_cases (λ (s : State). Room s (length w.overrides.buffer)) (r == 0 && p == 0) _ _ (λ _. empty)
      (λ more. (ground arith, small, empty)),
)

c_string_short : (bs : Bytes) → length (c_string bs) ≤ length bs
unfolding c_string
c_string_short [] = omega arith
c_string_short (b ∷ bs) =
    if_cases (λ (t : Bytes). length t ≤ suc (length bs)) (b == 0) _ _ (λ _. omega arith)
      (λ _. omega (arith, c_string_short bs))

settled-Pending :
    (most : ℕ) (r : Option (W Overrides)) (o : Overrides)
    → r ≢ none
    → Finally most r
    → Ensures (Pending most) (pax_result r o)
settled-Pending most none o n h = absurd (n refl)
settled-Pending most (some r) o n h = h

apply_override-Pending :
    (o : Overrides) (offset : ℕ) (kind : OverrideKind)
    → Fits override_max o.path
    → Fits override_max o.link
    → length o.buffer ≤ override_max
    → Ensures (Pending override_max) (apply_override o offset kind)
unfolding apply_override
apply_override-Pending o offset gnu_name path link le =
    (omega (arith, le, c_string_short o.buffer), link, refl)
apply_override-Pending o offset gnu_link path link le =
    (path, omega (arith, le, c_string_short o.buffer), refl)
apply_override-Pending o offset pax_global path link le = (path, link, refl)
apply_override-Pending o offset pax_next path link le =
    let emptied = record o { buffer = [] } in
    settled-Pending override_max (pax_loop (length o.buffer) emptied offset o.buffer) o
      (fuel_suffices (length o.buffer) emptied offset o.buffer (omega arith))
      (pax_loop-Pending (length o.buffer) override_max emptied offset o.buffer le
        (path, link, refl))

override_done-Safe :
    (w : TarWalker) (kind : OverrideKind)
    → Around w
    → length w.overrides.buffer ≤ override_max
    → Ensures Safe (override_done w kind)
unfolding override_done Safe
override_done-Safe w kind (block, path, link) le =
    Ensures-bind (Pending override_max) Safe (apply_override w.overrides w.offset kind)
      (λ overrides. ok (record w { state = header; overrides = overrides }, nothing))
      (apply_override-Pending w.overrides w.offset kind path link le)
      (λ overrides (p, l, e). (block, p, l, e))

override_byte-Safe :
    (w : TarWalker) (r p b : ℕ) (kind : OverrideKind)
    → Around w
    → Room (override_data r p kind) (length w.overrides.buffer)
    → Ensures Safe (override_byte w r p kind b)
unfolding override_byte Safe
override_byte-Safe w zero p b kind (block, path, link) (due, small, le) =
    if_cases (Ensures Safe) (not (b == 0)) _ _ (λ _. tt)
      (λ _.
        if_cases (Ensures Safe) (p - 1 == 0) _ _
          (λ _. override_done-Safe w kind (block, path, link) le)
          (λ more. (block, path, link, (ground arith, omega arith, le))))
override_byte-Safe w (suc r) p b kind (block, path, link) (due, small, le) =
    let buffer = w.overrides.buffer in
    let next = with_buffer w (buffer ++ b ∷ []) in
    if_cases (Ensures Safe) (leb override_max (length buffer)) _ _ (λ _. tt)
      (λ room.
        let fits : length (buffer ++ b ∷ []) ≤ override_max =
          ground (arith, length-append {0} buffer (b ∷ [])) in
        if_cases (Ensures Safe) (r == 0 && p == 0) _ _
          (λ _. override_done-Safe next kind (block, path, link) fits)
          (λ more. (block, path, link, (ground arith, small, fits))))

step-Safe :
    (s : State) (w : TarWalker) (b : ℕ)
    → InRoom w
    → Room s (length w.overrides.buffer)
    → Ensures Safe (step s w b)
unfolding step Safe
step-Safe header w b h k = header_byte-Safe w b h k
step-Safe first_zero w b h k = header_byte-Safe w b h k
step-Safe ended w b h k = if_cases (Ensures Safe) (b == 0) _ _ (λ _. h) (λ _. tt)
step-Safe (payload r p) w b (block, path, link, room) k =
    payload_byte-Safe w r p b (block, path, link) k
step-Safe (override_data r p kind) w b (block, path, link, room) k =
    override_byte-Safe w r p b kind (block, path, link) k

push-Safe : (w : TarWalker) (b : ℕ) → InRoom w → Ensures Safe (push w b)
unfolding push Safe
push-Safe w b h =
    Ensures-bind Safe Safe (step w.state w b)
      (λ r. ok (record r.0 { offset = r.0.offset + 1 }, r.1)) (step-Safe w.state w b h h.3)
      (λ r k. k)

Roomy : TarWalker × List TarEvent → Type 0
Roomy r = InRoom r.0

pushes-Roomy : (w : TarWalker) (bs : Bytes) → InRoom w → Ensures Roomy (pushes w bs)
unfolding pushes Roomy Safe
pushes-Roomy w [] h = h
pushes-Roomy w (b ∷ bs) h =
    Ensures-bind Safe Roomy (push w b) (λ r. pushes r.0 bs >>= λ later. ok (later.0, r.1 ∷ later.1))
      (push-Safe w b h)
      (λ r k.
        Ensures-bind Roomy Roomy (pushes r.0 bs) (λ later. ok (later.0, r.1 ∷ later.1))
          (pushes-Roomy r.0 bs k) (λ later m. m))

-- Whatever bytes a new walker of TAR archives takes, its header block stays below 512 bytes; what is buffered of
-- an extended header, and the pending path and link, are at most 16384 bytes each, and nothing is
-- buffered outside an extended header; the padding is below 512; and payload and padding are never
-- both at zero where a byte of either is due, so that counting down does not underflow.
pub buffers_hold : (bs : Bytes) → Ensures (λ r. InRoom r.0) (pushes new bs)
unfolding new Roomy
buffers_hold bs = pushes-Roomy new bs (omega arith, tt, tt, refl)
