-- ===== src/Read/Tests.antt =====
-- A read at a concrete handler.
use amethyst.Base.{◌≡◌, [], ◌∷◌, key_ltb}
use amethyst.Memtable
use amethyst.Memtable.{new_memtable}
use amethyst.Metadata.{Tracker, get_segments_for_key, covers, live_covering}
use amethyst.Sstable.Writer.{last_key}
use amethyst.Sstable.RoundTrip.Tests.{builder, value_entry, dead_entry, segment, file, written}
use amethyst.Read.{Handler, get}
use amethyst.Read.Held.{AllHeld, IsHeld}
use amethyst.Read.Ordered.{get_segments_for_key-find}
use amethyst.Metadata.Query.{contains}
use amethyst.Memtable.Lookup.{find}
use amethyst.Base.{refl, true, key_eqb}
use amethyst.Read.Newest.{IsReading, newest, get-newest}

abbrev tracker : Tracker
tracker = record { heap = segment ∷ []; segments = (9 ∷ [], 0) ∷ []; ordered = 0 ∷ [] }

abbrev handler : Handler
handler = record {
  memtable = new_memtable 2;
  tracker = tracker;
  reads = record { segment_file = file; global_read_comparisons = 0 };
}

-- One segment is in order as it is.
one_segment :
    AllHeld builder file.file.content tracker
      (get_segments_for_key (λ less ps. ps) (1 ∷ []) tracker)
unfolding get_segments_for_key live_covering covers key_ltb last_key
one_segment =
    rw (written.2.live, written.2.stored.min_key, written.2.stored.max_key)
      (
        record {
          first = value_entry;
          others = dead_entry ∷ [];
          stored = written.2.stored;
          live = written.2.live;
        },
        tt,
      )

get-newest_example :
    ((get (λ less ps. ps) (1 ∷ []) handler).0
      ≡ newest builder file.file.content tracker
          (get_segments_for_key (λ less ps. ps) (1 ∷ []) tracker)
          one_segment
          (1 ∷ [])
          (Memtable.get (new_memtable 2) (1 ∷ [])))
    × IsReading file.file.content tracker (get (λ less ps. ps) (1 ∷ []) handler).1
    × ((get (λ less ps. ps) (1 ∷ []) handler).1.memtable ≡ new_memtable 2)
get-newest_example =
    get-newest builder (λ less ps. ps) (1 ∷ []) handler one_segment written.2.healthy

abbrev segment-IsHeld : IsHeld builder file.file.content segment
segment-IsHeld = record {
  first = value_entry;
  others = dead_entry ∷ [];
  stored = written.2.stored;
  live = written.2.live;
}

get_segments_for_key-find_example :
    contains 0 (get_segments_for_key (λ less ps. ps) (1 ∷ []) tracker) ≡ true
unfolding contains find key_eqb
get_segments_for_key-find_example =
    get_segments_for_key-find builder file.file.content (λ less ps. ps) (1 ∷ []) tracker 0
      value_entry (λ less ps q. refl) refl segment-IsHeld refl
