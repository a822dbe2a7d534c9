-- ===== src/Directory/Refused.antt =====
-- What happens after `dir_add` of src/filesys/directory.c refused a name.
use kernel_dev.Prelude.{ℕ, ◌≡◌, refl, true, false, none, some, ◌==◌, ltb, ◌||◌, length, ==-refl}
use kernel_dev.FileSystem.{Inode, Persist}
use kernel_dev.Inode.Data.{Buffer}
use kernel_dev.Directory.{Name, Dir, Session, inode_lock, dir_inode, dir_add, dir_lookup, set_held}
use kernel_dev.Directory.Calls.{add_invalid}

lookup_locked :
    (persist : Persist) (y : Session) (dir : Dir) (name : Name) (e : Buffer)
    → y.held dir.inode ≡ true
    → dir_lookup persist y dir name e ≡ none
unfolding dir_lookup inode_lock
lookup_locked persist y dir name e h = rw h refl

add_locked :
    (persist : Persist) (y : Session) (dir : Dir) (name : Name) (sector : ℕ) (l e : Buffer)
    → y.held dir.inode ≡ true
    → dir_add persist y dir name sector l e ≡ none
unfolding dir_add inode_lock
add_locked persist y dir name sector l e h = rw h refl

-- After `dir_add` refused an empty name or one of more than 14 characters in a directory that was not
-- locked, the next look-up or addition in that directory by the same thread panics.
pub dir_add-refused :
    (persist : Persist) (y : Session) (dir : Dir) (i : Inode) (name : Name) (sector : ℕ)
    (l e : Buffer)
    → y.held dir.inode ≡ false
    → dir_inode y.files dir ≡ some i
    → ((length name == 0) || ltb 14 (length name)) ≡ true
    → (y' : Session) × (dir_add persist y dir name sector l e ≡ some (false, y'))
      × ((other : Name) (f : Buffer) → dir_lookup persist y' dir other f ≡ none)
      × ((other : Name) (s : ℕ) (f g : Buffer) → dir_add persist y' dir other s f g ≡ none)
dir_add-refused persist y dir i name sector l e free open_dir bad =
    let y' : Session = record y { held = set_held y.held dir.inode true } in
    let still : y'.held dir.inode ≡ true = rw (==-refl dir.inode) refl in
    (
      y',
      add_invalid persist y dir i free open_dir name sector l e bad,
      λ other f. lookup_locked persist y' dir other f still,
      λ other s f g. add_locked persist y' dir other s f g still,
    )
