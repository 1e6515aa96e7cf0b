-- ===== src/FileInfo/Types.antt =====
-- The type that a mode stands for.
use aup_assignments.Prelude.{ℕ, ◌+◌, ◌*◌, ◌<◌, ◌≡◌, arith, List, [], ◌∷◌, get_or}
use aup_assignments.FileInfo.{
  FileType, regular, directory, character, block, link, fifo, socket, unknown, masked, file_type,
}

-- The types by the number in bits 12 to 15.
abbrev pub table : List FileType
table =
    unknown ∷ fifo ∷ character ∷ unknown ∷ directory ∷ unknown ∷ block ∷ unknown ∷ regular ∷ unknown
    ∷ link ∷ unknown ∷ socket ∷ []

masked_lem : (k low : ℕ) → k < 16 → low < 4096 → masked (k * 4096 + low) ≡ k * 4096
masked_lem k low h g = omega arith

-- The type that the program prints for a mode depends on the four bits above its permissions alone,
-- and is that of the table in sys/stat.h; the numbers 13 to 15 and those between give "unknown".
file_type_lem :
    (k low : ℕ) → k < 16 → low < 4096 → file_type (k * 4096 + low) ≡ get_or table k unknown
file_type_lem k low h g = ground (arith, masked_lem k low h g)
