-- ===== src/Tests/PathRuns.antt =====
-- Runs of the parsing of paths in src/filesys/filesys.c.
use kernel_dev.Prelude.{ℕ, ◌≡◌, refl, List, [], ◌∷◌}
use kernel_dev.MapFile.{write_map}
use kernel_dev.Filesys.{start_walk, strtok_r, slashes}
use kernel_dev.Filesys.Tokens.{components, split}
use kernel_dev.Filesys.Walk.{walk_path, start_walk-walk_path}
use kernel_dev.Tests.DirectoryRuns.{session, dir, junk}

-- "a//bc/"
abbrev path : List ℕ
path = 97 ∷ 47 ∷ 47 ∷ 98 ∷ 99 ∷ 47 ∷ []

two_parts : components path ≡ (97 ∷ []) ∷ (98 ∷ 99 ∷ []) ∷ []
unfolding split
two_parts = refl

start_walk-walk_path_example :
    start_walk write_map session dir (strtok_r path slashes) junk
    ≡ walk_path write_map session dir (components path) junk
start_walk-walk_path_example = start_walk-walk_path write_map session dir path junk
