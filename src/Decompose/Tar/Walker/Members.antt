-- ===== src/Decompose/Tar/Walker/Members.antt =====
-- The bytes of a member.
use async_chunker.Decompose.Tar.Pax.{W}
use async_chunker.Decompose.Tar.Walker.{
  TarEvent, nothing, member_bytes, State, header, payload, TarWalker, push, step, payload_byte,
}
use async_chunker.Prelude.{
  ℕ, zero, suc, ◌+◌, ◌≡◌, ◌≢◌, refl, ap, ◌∙◌, List, [], ◌∷◌, ◌++◌, arith, length, Bytes, replicate,
}
use async_chunker.Result.{ok, ◌>>=◌}

-- The walker after some bytes, and what it reported for each.
unfoldable pub pushes : TarWalker → Bytes → W (TarWalker × List TarEvent)
unfolding push
pushes w [] = ok (w, [])
pushes w (b ∷ bs) = do r ← push w b; later ← pushes r.0 bs; ok (later.0, r.1 ∷ later.1)

abbrev at : TarWalker → State → ℕ → TarWalker
at w s n = record w { state = s; offset = n }

pub pushes_onto :
    (w v u : TarWalker) (b : ℕ) (bs : Bytes) (event : TarEvent) (events : List TarEvent)
    → push w b ≡ ok (v, event)
    → pushes v bs ≡ ok (u, events)
    → pushes w (b ∷ bs) ≡ ok (u, event ∷ events)
unfolding pushes
pushes_onto w v u b bs event events e f = rw (e, f) refl

padding_skipped :
    (w : TarWalker) (p n : ℕ)
    → pushes (at w (payload 0 (suc p)) n) (replicate (suc p) 0)
      ≡ ok (at w header (n + suc p), replicate (suc p) nothing)
unfolding pushes push step payload_byte
padding_skipped w zero n = ground arith
padding_skipped w (suc p) n =
    pushes_onto (at w (payload 0 (suc (suc p))) n) (at w (payload 0 (suc p)) (n + 1))
      (at w header (n + suc (suc p))) 0 (replicate (suc p) 0) nothing (replicate (suc p) nothing)
      (ground arith)
      (padding_skipped w p (n + 1)
        ∙ ap (λ (m : ℕ). ok (at w header m, replicate (suc p) nothing)) (omega arith))

last_byte :
    (w : TarWalker) (b padding n : ℕ)
    → pushes (at w (payload 1 padding) n) (b ∷ replicate padding 0)
      ≡ ok (at w header (n + 1 + padding), member_bytes 1 ∷ replicate padding nothing)
unfolding pushes push step payload_byte
last_byte w b zero n =
    pushes_onto (at w (payload 1 0) n) (at w header (n + 1)) (at w header (n + 1 + 0)) b []
      (member_bytes 1) [] (ground arith) (ap (λ (m : ℕ). ok (at w header m, [])) (omega arith))
last_byte w b (suc p) n =
    pushes_onto (at w (payload 1 (suc p)) n) (at w (payload 0 (suc p)) (n + 1))
      (at w header (n + 1 + suc p)) b (replicate (suc p) 0) (member_bytes 1)
      (replicate (suc p) nothing) (ground arith) (padding_skipped w p (n + 1))

bytes_walked :
    (w : TarWalker) (b : ℕ) (bs : Bytes) (padding n : ℕ)
    → pushes (at w (payload (suc (length bs)) padding) n) ((b ∷ bs) ++ replicate padding 0)
      ≡ ok (
        at w header (n + suc (length bs) + padding),
        replicate (suc (length bs)) (member_bytes 1) ++ replicate padding nothing,
      )
unfolding push step payload_byte
bytes_walked w b [] padding n = last_byte w b padding n
bytes_walked w b (c ∷ bs) padding n =
    pushes_onto (at w (payload (suc (suc (length bs))) padding) n)
      (at w (payload (suc (length bs)) padding) (n + 1))
      (at w header (n + suc (suc (length bs)) + padding)) b ((c ∷ bs) ++ replicate padding 0)
      (member_bytes 1) (replicate (suc (length bs)) (member_bytes 1) ++ replicate padding nothing)
      (ground arith)
      (bytes_walked w c bs padding (n + 1)
        ∙ ap
            (λ (m : ℕ). ok (
              at w header m,
              replicate (suc (length bs)) (member_bytes 1) ++ replicate padding nothing,
            ))
            (omega arith))

-- The bytes of a member are reported one by one, whatever they are, the zero bytes of its padding report
-- nothing, and the walker is back at a header, with its buffers and overrides as they were.
pub member_walked :
    (w : TarWalker) (bytes : Bytes) (padding : ℕ)
    → bytes ≢ []
    → w.state ≡ payload (length bytes) padding
    → pushes w (bytes ++ replicate padding 0)
      ≡ ok (
        record w { state = header; offset = w.offset + length bytes + padding },
        replicate (length bytes) (member_bytes 1) ++ replicate padding nothing,
      )
member_walked w [] padding ne e = absurd (ne refl)
member_walked w (b ∷ bs) padding ne e =
    ap (λ (s : State). pushes (record w { state = s }) ((b ∷ bs) ++ replicate padding 0)) e
    ∙ bytes_walked w b bs padding w.offset
