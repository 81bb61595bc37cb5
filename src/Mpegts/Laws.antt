-- ===== src/Mpegts/Laws.antt =====
-- Every chunk of a transport stream is a whole number of packets.
use async_chunker.Gear.{Blake3, reset}
use async_chunker.Gear.Window.{update_all-table}
use async_chunker.Mpegts.Packet.{TsFault, packet_len, PacketSeam, is_candidate, inspect}
use async_chunker.Mpegts.{
  MpegtsChunker, max_packets, new, rejects, cuts_first, emptied, appended, place_packet,
  place_inspected, collects, push_byte,
}
use async_chunker.Outcome.Contract.{Keeps}
use async_chunker.Outcome.{Outcome, succeed}
use async_chunker.Prelude.{
  ℕ, ◌*◌, ◌%◌, ◌≤◌, ◌<◌, ◌≡◌, refl, sym, ap, ◌∙◌, inl, inr, [], ◌∷◌, ◌++◌, Bool, true, false, arith,
  Bytes, length, length-append, append-nil, append_assoc, is_empty, Bool-cases, flatten, ◌==◌,
}
use async_chunker.Result.{Result, ok, err}

-- A whole number of packets, at least one, within the packet-aligned maximum.
abbrev pub IsChunk : Bytes → Type 0
IsChunk chunk =
    (0 < length chunk) × (length chunk ≤ max_packets * packet_len) × (length chunk % packet_len ≡ 0)

abbrev pub pending : MpegtsChunker → Bytes
pending c = c.buffer ++ c.packet

-- The chunker with nothing collected.
abbrev pub base : MpegtsChunker → MpegtsChunker
base c = record c {
  hash = reset c.hash;
  packet = [];
  buffer = [];
  offset = 0;
  seen_packet = false;
  rejected = false;
}

-- Between packets and inside one: `packet` is what the packet begun so far may hold.
pub record Holds (blake3 : Blake3) (limit : ℕ) (c : MpegtsChunker) : Type 0 where
  pub room : length c.buffer ≤ max_packets * packet_len
  pub aligned : length c.buffer % packet_len ≡ 0
  pub partial : length c.packet ≤ limit
  pub accepting : c.rejected ≡ false
  pub parameters : base c ≡ new blake3
  pub at_rest : c.buffer ≡ [] → c.hash.hash ≡ 0

abbrev pub Inv : Blake3 → MpegtsChunker → Type 0
Inv blake3 = Holds blake3 187

pub nonempty-length : (xs : Bytes) → is_empty xs ≡ false → 0 < length xs
nonempty-length [] e = cc
nonempty-length (x ∷ xs) e = omega arith

pub empty-nil : (xs : Bytes) → is_empty xs ≡ true → xs ≡ []
empty-nil [] e = refl
empty-nil (x ∷ xs) e = cc

append-ne-nil : (xs ys : Bytes) → 0 < length ys → xs ++ ys ≡ [] → ⊥
append-ne-nil xs ys h e = omega (arith, length-append {0} xs ys, ap (length {0}) e)

-- A cut never falls on an empty buffer, and is forced at the maximum.
cuts_first-nonempty : (c : MpegtsChunker) (k : Bool) → cuts_first c k ≡ true → 0 < length c.buffer
unfolding cuts_first
cuts_first-nonempty c k e = nonempty-length c.buffer (ground arith)

stays_room :
    (c : MpegtsChunker) (k : Bool)
    → cuts_first c k ≡ false
    → length c.buffer < max_packets * packet_len
unfolding cuts_first
stays_room c k e = elim (Bool-cases (is_empty c.buffer)) [
  | inl z ↦ omega (arith, ap (length {0}) (empty-nil c.buffer z))
  | inr s ↦ ground arith
]

pub rejects-Keeps :
    (Inv : MpegtsChunker → Type 0) (c : MpegtsChunker) (input : Bytes) (fault : TsFault)
    (d : MpegtsChunker)
    → Keeps IsChunk pending Inv c input (rejects d fault)
unfolding rejects flatten
rejects-Keeps Inv c input fault d = record {
  fits = tt;
  keeps = λ x. cc;
  conserves = λ x. cc;
  unsent = pending c ++ input;
  is_prefix = refl;
}

module _ (blake3 : Blake3) where
  table_kept : (c : MpegtsChunker) → base c ≡ new blake3 → base (appended c) ≡ new blake3
  table_kept c e =
      ap (λ (t : ℕ → ℕ). record (base c) { hash = record { table = t; hash = 0 } })
        (update_all-table c.hash c.packet)
      ∙ e

  -- One whole packet placed.
  place_packet-Keeps :
      (c : MpegtsChunker) (k : Bool)
      → Holds blake3 packet_len c
      → length c.packet ≡ packet_len
      → Keeps IsChunk pending (Inv blake3) c [] (place_packet c k)
  unfolding place_packet flatten
  place_packet-Keeps c k h full = elim (Bool-cases (cuts_first c k)) [
    | inl cut ↦ rw cut (record {
      fits = ((cuts_first-nonempty c k cut, h.room, h.aligned), tt);
      keeps = λ _. record {
        room = omega arith;
        aligned = omega arith;
        partial = omega arith;
        accepting = h.accepting;
        parameters = table_kept (emptied c) h.parameters;
        at_rest = λ e. absurd (append-ne-nil [] c.packet (omega arith) e);
      };
      conserves = λ _. simp append-nil;
      unsent = c.packet;
      is_prefix = simp append-nil;
    })
    | inr stay ↦ rw stay (record {
      fits = tt;
      keeps = λ _. record {
        room =
            let r = stays_room c k stay in
            let a = h.aligned in omega (arith, length-append {0} c.buffer c.packet);
        aligned = let a = h.aligned in omega (arith, length-append {0} c.buffer c.packet);
        partial = omega arith;
        accepting = h.accepting;
        parameters = table_kept c h.parameters;
        at_rest = λ e. absurd (append-ne-nil c.buffer c.packet (omega arith) e);
      };
      conserves = λ _. refl;
      unsent = c.buffer ++ c.packet;
      is_prefix = sym (append-nil (c.buffer ++ c.packet));
    })
  ]

  place_inspected-Keeps :
      (c : MpegtsChunker) (r : Result TsFault PacketSeam)
      → Holds blake3 packet_len c
      → length c.packet ≡ packet_len
      → Keeps IsChunk pending (Inv blake3) c [] (place_inspected c r)
  unfolding place_inspected
  place_inspected-Keeps c (ok seam) h full =
      let seen = record c { seen_packet = true } in
      let k =
        place_packet-Keeps seen (is_candidate seam)
          (record {
            room = h.room;
            aligned = h.aligned;
            partial = h.partial;
            accepting = h.accepting;
            parameters = h.parameters;
            at_rest = h.at_rest;
          })
          full in
      record {
        fits = k.fits;
        keeps = k.keeps;
        conserves = k.conserves;
        unsent = k.unsent;
        is_prefix = k.is_prefix;
      }
  place_inspected-Keeps c (err fault) h full = rejects-Keeps (Inv blake3) c [] fault c

  -- The byte taken is part of what the chunker then holds.
  from_collected :
      (c : MpegtsChunker) (b : ℕ) (o : Outcome MpegtsChunker)
      → Keeps IsChunk pending (Inv blake3) (collects c b) [] o
      → Keeps IsChunk pending (Inv blake3) c (b ∷ []) o
  from_collected c b o k =
      let moved : pending (collects c b) ++ [] ≡ pending c ++ b ∷ [] =
        append-nil (pending (collects c b)) ∙ sym (append_assoc c.buffer c.packet (b ∷ [])) in
      record {
        fits = k.fits;
        keeps = k.keeps;
        conserves = λ e. k.conserves e ∙ moved;
        unsent = k.unsent;
        is_prefix = k.is_prefix ∙ moved;
      }

  collects-Holds :
      (c : MpegtsChunker) (b : ℕ) → Inv blake3 c → Holds blake3 packet_len (collects c b)
  collects-Holds c b i = record {
    room = i.room;
    aligned = i.aligned;
    partial = let p = i.partial in omega (arith, length-append {0} c.packet (b ∷ []));
    accepting = i.accepting;
    parameters = i.parameters;
    at_rest = i.at_rest;
  }

  pub push_byte-Keeps :
      (c : MpegtsChunker) (b : ℕ)
      → Inv blake3 c
      → Keeps IsChunk pending (Inv blake3) c (b ∷ []) (push_byte c b)
  unfolding push_byte flatten
  push_byte-Keeps c b i =
      let h = collects-Holds c b i in
      let next = collects c b in
      elim (Bool-cases (length next.packet == packet_len)) [
        | inl whole ↦ rw whole (
            from_collected c b (place_inspected next (inspect next.packet))
              (place_inspected-Keeps next (inspect next.packet) h (ground arith)))
        | inr part ↦ rw part (
            from_collected c b (succeed next) (record {
              fits = tt;
              keeps = λ _. record {
                room = h.room;
                aligned = h.aligned;
                partial = let p = h.partial in ground arith;
                accepting = h.accepting;
                parameters = h.parameters;
                at_rest = h.at_rest;
              };
              conserves = λ _. sym (append-nil (pending next));
              unsent = pending next;
              is_prefix = sym (append-nil (pending next));
            }))
      ]
