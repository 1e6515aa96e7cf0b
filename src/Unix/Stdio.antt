-- ===== src/Unix/Stdio.antt =====
-- printf and the buffer of standard output, which fork copies with the rest of the process: a line
-- goes to the buffer, and the buffer is written out at once if each line is, or else at exit.
use aup_assignments.Prelude.{Bool, List, [], ◌∷◌, ◌++◌, if◌then◌else◌}

module _ {L : Type 0} where
  -- What is left in the buffer after a line.
  abbrev pub left : Bool → List L → L → List L
  left now buf x = if now then [] else buf ++ x ∷ []

  -- What has been written to standard output after a line.
  abbrev pub written : Bool → List L → L → List L → List L
  written now buf x out = if now then out ++ (buf ++ x ∷ []) else out
