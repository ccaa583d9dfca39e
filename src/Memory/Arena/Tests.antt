-- ===== src/Memory/Arena/Tests.antt =====
-- Runs of the allocator, and the theorems of its modules at concrete arenas.
use the_ai_cowboys_6_shooter.Prelude.{◌+◌, ◌^◌, ◌≡◌, refl, arith, ltb, if◌then◌else◌}
use the_ai_cowboys_6_shooter.Memory.Arena.{
  Arena, granted, exhausted, align_up, attempt, pointer, alloc, alloc_slice, new,
}
use the_ai_cowboys_6_shooter.Memory.Arena.Align.{IsAlignedUp}
use the_ai_cowboys_6_shooter.Memory.Arena.Sequential.{IsValid, IsRequest, alloc_lem}

abbrev busy : Arena
busy = record { base = 4097; cursor = 64; capacity = 4096 }

busy-IsValid : IsValid busy
busy-IsValid = record { small = omega arith; inside = omega arith }

abbrev page : Arena
page = new 0 64

request : IsRequest 128 4
request = record { size_fits = omega arith; align_fits = omega arith }

-- The block of the repository's own test: 128 bytes at 16 after 64 bytes.
alloc-busy : alloc busy 128 16 ≡ (granted (4097 + 64), record busy { cursor = 192 })
unfolding alloc attempt align_up pointer
alloc-busy = refl

alloc_odd :
    alloc (record busy { cursor = 3 }) 8 8 ≡ (granted (4097 + 8), record busy { cursor = 16 })
unfolding alloc attempt align_up pointer
alloc_odd = refl

alloc_full : alloc (record busy { cursor = 4090 }) 8 8 ≡ (exhausted, record busy { cursor = 4090 })
unfolding alloc attempt align_up pointer
alloc_full = refl

-- An element count whose bytes wrap is granted as an empty block.
alloc_slice_wraps : alloc_slice busy 8 8 (2 ^ 61) ≡ (granted (4097 + 64), busy)
unfolding alloc_slice alloc attempt align_up pointer
alloc_slice_wraps = refl

alloc_lem_example :
    IsAlignedUp 64 16 (align_up 64 16)
    × (alloc busy 128 16 ≡ (
        if ltb 4096 (align_up 64 16 + 128)
        then (exhausted, busy)
        else (granted (4097 + align_up 64 16), record busy { cursor = align_up 64 16 + 128 })))
alloc_lem_example = alloc_lem 128 4 busy-IsValid request
