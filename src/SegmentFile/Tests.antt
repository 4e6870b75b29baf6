-- ===== src/SegmentFile/Tests.antt =====
-- The theorems at concrete files.
use amethyst.Base.{refl, true, some, [], ◌∷◌, arith}
use amethyst.File.{healthy}
use amethyst.SegmentFile.{SegmentFile}
use amethyst.SegmentFile.Window.{
  IsWindow, Shows, Appended, parts, get_mmap_data-Shows, append-Appended,
}

-- a map of two bytes of a file that has grown to three
abbrev stale : SegmentFile
stale = parts (healthy (1 ∷ 2 ∷ 3 ∷ [])) [] (some (1 ∷ 2 ∷ [])) 2 true 0

stale-IsWindow : IsWindow stale
stale-IsWindow = record { shown = λ d on same. (omega arith, ground (arith, same)) }

get_mmap_data-Shows_example : Shows stale
get_mmap_data-Shows_example = get_mmap_data-Shows stale refl stale-IsWindow

append-Appended_example : Appended stale (4 ∷ [])
append-Appended_example = append-Appended stale (4 ∷ []) refl stale-IsWindow
