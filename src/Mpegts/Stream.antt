-- ===== src/Mpegts/Stream.antt =====
-- `mpegts-v1` over a whole stream.
use async_chunker.Chunker.{drive, drive_each}
use async_chunker.Chunker.Whole.{drive-Chunked, drive_each-drive}
use async_chunker.Gear.{Blake3}
use async_chunker.Mpegts.End.{laws}
use async_chunker.Mpegts.Laws.{IsChunk, pending, Inv}
use async_chunker.Mpegts.{new, push, finish}
use async_chunker.Prelude.{List, ◌++◌, ◌≡◌, none, Bytes, All, flatten}

-- Every chunk is a whole number of packets, at least one and within the packet-aligned maximum. If the
-- stream is accepted, the chunks concatenate to it and the chunker is as new; if it is rejected, what was
-- emitted before is a prefix of it.
pub mpegts_stream :
    (blake3 : Blake3) (bytes : Bytes)
    → let o = drive push finish (new blake3) bytes in
      All IsChunk o.emitted
      × (o.error ≡ none → (flatten o.emitted ≡ bytes) × (o.state ≡ new blake3))
      × ((rest : Bytes) × (flatten o.emitted ++ rest ≡ bytes))
mpegts_stream blake3 bytes =
    let c =
      drive-Chunked (new blake3) push finish IsChunk pending (Inv blake3) (λ d. d ≡ new blake3)
        (laws blake3) bytes in
    (c.fits, λ e. (c.whole e, c.reusable e), (c.unsent, c.is_prefix))

-- How a stream is cut into windows does not change its chunks, its result, or the state left.
pub mpegts_windows :
    (blake3 : Blake3) (windows : List Bytes)
    → drive_each push finish (new blake3) windows ≡ drive push finish (new blake3) (flatten windows)
mpegts_windows blake3 =
    drive_each-drive (new blake3) push finish IsChunk pending (Inv blake3) (λ d. d ≡ new blake3)
      (laws blake3)
