-- ===== src/Storage/ChunkPool/Pool/Read.antt =====
-- `read_segment_data` on a slot that holds segments.
use oasis_nvr.Prelude.{
  ℕ, ◌+◌, ◌-◌, ◌%◌, ◌^◌, ◌≤◌, ◌≡◌, refl, sym, ap, ◌∙◌, List, [], ◌∷◌, ◌++◌, arith, append_assoc,
  length, length-append, drop, drop-append_length, add64, le_bytes, length-le_bytes, All,
}
use oasis_nvr.Chrono.{Chrono}
use oasis_nvr.Outcome.{ok}
use oasis_nvr.Storage.ChunkPool.Types.{record_magic}
use oasis_nvr.Storage.ChunkPool.Record.{Segment, record_size, cam_bytes, encode_record}
use oasis_nvr.Storage.ChunkPool.Record.RoundTrip.{IsStorable, length-cam_bytes, read_exact-append}
use oasis_nvr.Storage.ChunkPool.Record.Scan.{layout, total_size}
use oasis_nvr.Storage.ChunkPool.Files.{Store}
use oasis_nvr.Storage.ChunkPool.Pool.{read_segment_data}
use oasis_nvr.Storage.ChunkPool.Pool.Append.{Holds, layout-append, length-layout, drop_past}

-- The 40 bytes before the data.
abbrev record_header : Chrono → Segment → List ℕ
record_header ch s =
    record_magic
    ++ (cam_bytes s.camera_id
        ++ (le_bytes 8 (ch.timestamp s.start_ts)
            ++ (le_bytes 8 (ch.timestamp s.end_ts) ++ le_bytes 4 (length s.bytes))))

length-record_header : (ch : Chrono) (s : Segment) → length (record_header ch s) ≡ 40
length-record_header ch s =
    rw
      (
        length-append (cam_bytes s.camera_id),
        length-append (le_bytes 8 (ch.timestamp s.start_ts)),
        length-append (le_bytes 8 (ch.timestamp s.end_ts)),
        length-cam_bytes,
        length-le_bytes 8 (ch.timestamp s.start_ts),
        length-le_bytes 8 (ch.timestamp s.end_ts),
        length-le_bytes 4 (length s.bytes),
      )
      refl

encode_record-header :
    (ch : Chrono) (s : Segment) (rest : List ℕ)
    → encode_record ch s ++ rest ≡ record_header ch s ++ (s.bytes ++ rest)
unfolding encode_record
encode_record-header ch s rest = simp append_assoc

layout-split :
    (ch : Chrono) (before after : List Segment) (seg : Segment) (tail : List ℕ)
    → layout ch (before ++ (seg ∷ after)) tail
      ≡ layout ch before (encode_record ch seg ++ layout ch after tail)
layout-split ch [] after seg tail = refl
layout-split ch (b ∷ before) after seg tail =
    ap (◌++◌ (encode_record ch b)) (layout-split ch before after seg tail)

All-split {ℓ κ} :
    {A : Type ℓ} (P : A → Type κ) (xs ys : List A) (y : A) → All P (xs ++ (y ∷ ys)) → All P xs × P y
All-split P [] ys y h = (tt, h.0)
All-split P (x ∷ xs) ys y h = let (t, p) = All-split P xs ys y h.1 in ((h.0, t), p)

total_size-split :
    (before after : List Segment) (seg : Segment)
    → total_size before + record_size seg ≤ total_size (before ++ (seg ∷ after))
total_size-split [] after seg = omega arith
total_size-split (b ∷ before) after seg = omega (arith, total_size-split before after seg)

-- Where the location of a segment points to its record among those that its pool holds, reading
-- there gives the segment's data, and changes nothing.
pub read_segment_data-Holds :
    (ch : Chrono) (s : Store) (idx pool_id : ℕ) (before after : List Segment) (seg : Segment)
    → Holds ch s idx pool_id (before ++ (seg ∷ after))
    → read_segment_data
        (record {
          pool_idx = idx;
          pool_id = pool_id;
          record_offset = 64 + total_size before;
          record_size = record_size seg;
        })
        s
      ≡ (ok seg.bytes, s)
unfolding read_segment_data
read_segment_data-Holds ch s idx pool_id before after seg h =
    let parts = All-split (IsStorable ch) before after seg h.storable in
    let size : (record_size seg + 2 ^ 64 - 40) % 2 ^ 64 ≡ length seg.bytes =
      omega (arith, parts.1.length_fits) in
    rw (h.slot, h.file, size, at_data, read_exact-append seg.bytes (layout ch after h.tail))
  where
    front : List ℕ
    front = h.header ++ layout ch before []

    offset-eq : add64 (64 + total_size before) 40 ≡ length front + 40
    offset-eq = omega (
      arith,
      length-append h.header (layout ch before []),
      length-layout ch before (All-split (IsStorable ch) before after seg h.storable).0,
      h.header_size,
      h.fits,
      total_size-split before after seg,
    )

    file-eq :
        h.header ++ layout ch (before ++ (seg ∷ after)) h.tail
        ≡ front ++ (record_header ch seg ++ (seg.bytes ++ layout ch after h.tail))
    file-eq =
        rw
          (
            layout-split ch before after seg h.tail,
            layout-append ch before (encode_record ch seg ++ layout ch after h.tail),
            encode_record-header ch seg (layout ch after h.tail),
          )
          (sym (append_assoc h.header (layout ch before []) _))

    at_data :
        drop
          (add64 (64 + total_size before) 40)
          (h.header ++ layout ch (before ++ (seg ∷ after)) h.tail)
        ≡ seg.bytes ++ layout ch after h.tail
    at_data =
        rw (file-eq, offset-eq)
          (drop_past front (record_header ch seg ++ (seg.bytes ++ layout ch after h.tail)) 40
            ∙ rw (length-record_header ch seg) at
                (drop-append_length (record_header ch seg) (seg.bytes ++ layout ch after h.tail)))
