-- ===== src/DotLinks/Results.antt =====
-- What is_symlink.c prints in its directory.
use aup_assignments.Prelude.{ℕ, ◌++◌, ◌≡◌, refl, none, some, List, [], ◌∷◌}
use aup_assignments.Unix.Proc.{exited}
use aup_assignments.DotLinks.{
  dot, dotdot, test_dot_dotdot_symlink, aup, Tree, directory, Line, inode, links, file_type,
  type_of, main,
}

-- The entries of the directory of the program, of the one above, and of that above both.
pub record Nested (tree : Tree) (cwd parent above : ℕ) : Type 0 where
  pub self : tree.entry cwd dot ≡ some cwd
  pub up : tree.entry cwd dotdot ≡ some parent
  pub down : tree.entry parent test_dot_dotdot_symlink ≡ some cwd
  pub further_up : tree.entry parent dotdot ≡ some above
  pub mode : type_of (tree.stat cwd).st_mode ≡ directory
  pub parent_mode : type_of (tree.stat parent).st_mode ≡ directory

-- What is printed of both, before the last lstat.
abbrev pub known : Tree → ℕ → ℕ → List Line
known tree cwd parent =
    let st = tree.stat cwd in
    let up = tree.stat parent in
    inode dot st.st_ino
    ∷ links dot st.st_nlink
    ∷ file_type dot directory
    ∷ inode test_dot_dotdot_symlink st.st_ino
    ∷ links test_dot_dotdot_symlink st.st_nlink
    ∷ inode dotdot up.st_ino
    ∷ links dotdot up.st_nlink
    ∷ file_type dotdot directory
    ∷ []

module _ {tree : Tree} {cwd parent above : ℕ} (n : Nested tree cwd parent above) where
  -- "." and the name of the directory have one inode with one number of links, so do ".." and the name
  -- of the directory above, and neither is a symbolic link.
  same_inode :
      tree.entry above aup ≡ some parent
      → let up = tree.stat parent in
        main tree cwd []
        ≡ (exited 0, known tree cwd parent ++ inode aup up.st_ino ∷ links aup up.st_nlink ∷ [])
  unfolding main
  same_inode h = rw (n.self, n.up, n.down, n.further_up, h, n.mode, n.parent_mode) refl

  -- If the directory above has another name, the last lstat fails, and what is printed up to then
  -- remains.
  other_name :
      tree.entry above aup ≡ none → main tree cwd [] ≡ (exited tree.errno, known tree cwd parent)
  unfolding main
  other_name h = rw (n.self, n.up, n.down, n.further_up, h, n.mode, n.parent_mode) refl
