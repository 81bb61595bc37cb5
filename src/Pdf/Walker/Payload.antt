-- ===== src/Pdf/Walker/Payload.antt =====
-- Stream payloads that are counted down.
use async_chunker.Pdf.Object.{ObjectScanner, is_whitespace}
use async_chunker.Pdf.Walker.Taken.{taken, taken_on}
use async_chunker.Pdf.Walker.{
  State, stream_bytes, stream_close, object, Walker, consume, step, stream_close_step, endstream,
}
use async_chunker.Prelude.{
  ℕ, suc, ◌+◌, ◌≡◌, refl, ap, ◌∙◌, Bool, true, false, ◌&&◌, none, some, [], ◌∷◌, ◌++◌, arith,
  length, Bytes,
}
use async_chunker.Result.{ok}

-- The walker in a state, at an offset, within an item.
abbrev pub within : Walker → State → ℕ → Walker
within w s n = record w { state = s; offset = n; boundary_pending = false }

abbrev pub all_white : Bytes → Bool
all_white [] = true
all_white (b ∷ bs) = is_whitespace b && all_white bs

byte_counted :
    (w : Walker) (s : ObjectScanner) (b m n : ℕ)
    → consume (within w (stream_bytes s (suc (suc m))) n) b
      ≡ (within w (stream_bytes s (suc m)) (n + 1), ok none)
unfolding consume step
byte_counted w s b m n = ground arith

last_counted :
    (w : Walker) (s : ObjectScanner) (b n : ℕ)
    → consume (within w (stream_bytes s 1) n) b ≡ (within w (stream_close s 0) (n + 1), ok none)
unfolding consume step
last_counted w s b n = ground arith

pub none_more : (n : ℕ) → n ≡ n + 0
none_more n = omega arith

pub further : (n m : ℕ) → n + 1 + m ≡ n + suc m
further n m = omega arith

pub payload_counted :
    (w : Walker) (s : ObjectScanner) (b : ℕ) (bs rest : Bytes) (n : ℕ)
    → taken (within w (stream_bytes s (suc (length bs))) n) (b ∷ (bs ++ rest))
      ≡ taken (within w (stream_close s 0) (n + suc (length bs))) rest
payload_counted w s b [] rest n =
    taken_on (within w (stream_bytes s 1) n) (within w (stream_close s 0) (n + 1)) b rest
      (last_counted w s b n)
payload_counted w s b (c ∷ bs) rest n =
    taken_on (within w (stream_bytes s (suc (suc (length bs)))) n)
      (within w (stream_bytes s (suc (length bs))) (n + 1)) b (c ∷ (bs ++ rest))
      (byte_counted w s b (length bs) n)
    ∙ payload_counted w s c bs rest (n + 1)
    ∙ ap (λ (m : ℕ). taken (within w (stream_close s 0) m) rest) (further n (suc (length bs)))

white_stays :
    (w : Walker) (s : ObjectScanner) (b n : ℕ)
    → is_whitespace b ≡ true
    → consume (within w (stream_close s 0) n) b ≡ (within w (stream_close s 0) (n + 1), ok none)
unfolding consume step stream_close_step
white_stays w s b n h = rw h refl

pub white_skipped :
    (w : Walker) (s : ObjectScanner) (white rest : Bytes) (n : ℕ)
    → all_white white ≡ true
    → taken (within w (stream_close s 0) n) (white ++ rest)
      ≡ taken (within w (stream_close s 0) (n + length white)) rest
white_skipped w s [] rest n h =
    ap (λ (m : ℕ). taken (within w (stream_close s 0) m) rest) (none_more n)
white_skipped w s (b ∷ bs) rest n h =
    taken_on (within w (stream_close s 0) n) (within w (stream_close s 0) (n + 1)) b (bs ++ rest)
      (white_stays w s b n (ground arith))
    ∙ white_skipped w s bs rest (n + 1) (ground arith)
    ∙ ap (λ (m : ℕ). taken (within w (stream_close s 0) m) rest) (further n (length bs))

pub endstream_closes :
    (w : Walker) (s : ObjectScanner) (n : ℕ)
    → taken (within w (stream_close s 0) n) endstream ≡ some (within w (object s) (n + 9))
unfolding taken consume step stream_close_step is_whitespace
endstream_closes w s n = ap (λ (m : ℕ). some (within w (object s) m)) (nine n)
  where
    nine : (n : ℕ) → n + 1 + 1 + 1 + 1 + 1 + 1 + 1 + 1 + 1 ≡ n + 9
    nine n = omega arith
