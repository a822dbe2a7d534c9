-- ===== src/Directory/Calls.antt =====
-- The calls `dir_add` and `dir_lookup` of src/filesys/directory.c, with the lock of the directory.
use kernel_dev.Prelude.{
  ℕ, ◌*◌, ◌/◌, ◌^◌, ◌<◌, ◌≡◌, refl, ◌∙◌, subst, Bool, true, false, Option, none, some, ◌==◌, ltb,
  ◌||◌, length, arith, Bool-cases, inl, inr, ==-refl,
}
use kernel_dev.FileSystem.{FileSystem, Inode, Persist}
use kernel_dev.Inode.Data.{Buffer}
use kernel_dev.Inode.Open.{update_open}
use kernel_dev.Directory.{
  Name, Dir, Session, lookup, inode_lock, inode_release, dir_inode, dir_add, set_held,
}
use kernel_dev.Directory.Entries.{entry, is_named, Looked, there, missing, lookup-Looked, free_slot}
use kernel_dev.Directory.{add_unless}
use kernel_dev.Directory.Adding.{IsDirectory, Filled, add_entry-Filled, whole_mapped}

-- The locks after the lock of one inode was acquired and released.
abbrev pub unlocked : Session → ℕ → ℕ → Bool
unlocked y s = set_held (set_held y.held s true) s false

-- What a call of `dir_add` did. `invalid`: the name is empty or too long; nothing is added, and the lock
-- is still held. `present`: the name is there already, and nothing is added. `added`: it was not there,
-- and a free slot has it now.
pub data Added (y : Session) (dir : Dir) (i : Inode) (name : Name) (sector : ℕ)
    (r : Option (Bool × Session)) : Type 0 where
  invalid :
      ((length name == 0) || ltb 14 (length name)) ≡ true
      → r ≡ some (false, record y { held = set_held y.held dir.inode true })
      → Added y dir i name sector r
  present :
      (k : ℕ)
      → k < i.length / 20
      → is_named name (entry y.files.sectors i.sector k) ≡ true
      → r ≡ some (false, record y { held = unlocked y dir.inode })
      → Added y dir i name sector r
  added :
      (files : FileSystem)
      → ((k : ℕ) → k < i.length / 20 → is_named name (entry y.files.sectors i.sector k) ≡ false)
      → Filled y.files i name sector (some (true, files))
      → r ≡ some (true, record { files = files; held = unlocked y dir.inode })
      → Added y dir i name sector r

module _ (persist : Persist) (y : Session) (dir : Dir) (i : Inode) where
  pub lock_lem :
      y.held dir.inode ≡ false
      → inode_lock y dir.inode ≡ some (record y { held = set_held y.held dir.inode true })
  unfolding inode_lock
  lock_lem free = rw free refl

  pub release_lem :
      (files : FileSystem)
      → inode_release (record { files = files; held = set_held y.held dir.inode true }) dir.inode
        ≡ some (record { files = files; held = unlocked y dir.inode })
  unfolding inode_release
  release_lem files = rw (==-refl dir.inode) refl

  module _ (free : y.held dir.inode ≡ false) (open_dir : dir_inode y.files dir ≡ some i) where
    pub add_invalid :
        (name : Name) (sector : ℕ) (l e : Buffer)
        → ((length name == 0) || ltb 14 (length name)) ≡ true
        → dir_add persist y dir name sector l e
          ≡ some (false, record y { held = set_held y.held dir.inode true })
    unfolding dir_add
    add_invalid name sector l e bad = rw (lock_lem free) (rw bad refl)

    add_valid :
        (name : Name) (sector : ℕ) (l e : Buffer) (found : Option (Buffer × ℕ)) (b : Bool)
        (files : FileSystem)
        → ((length name == 0) || ltb 14 (length name)) ≡ false
        → lookup persist y.files i name l ≡ some (found, y.files)
        → add_unless persist found y.files i name sector e ≡ some (b, files)
        → dir_add persist y dir name sector l e
          ≡ some (b, record { files = files; held = unlocked y dir.inode })
    unfolding dir_add
    add_valid name sector l e found b files ok looks adds =
        rw (lock_lem free) (rw (ok, open_dir) (rw looks (rw adds (rw (release_lem files) refl))))

    module _ (d : IsDirectory y.files.sectors i) (name : Name) (sector : ℕ)
        (small : sector < 2 ^ 32) (l e : Buffer) where
      by_lookup :
          {r : Option (Option (Buffer × ℕ) × FileSystem)}
          → ((length name == 0) || ltb 14 (length name)) ≡ false
          → lookup persist y.files i name l ≡ r
          → Looked persist y.files i (whole_mapped d) name r
          → Added y dir i name sector (dir_add persist y dir name sector l e)
      unfolding add_unless
      by_lookup ok f (there k e' h n first same g) =
          present k h n
            (add_valid name sector l e (some (e', 20 * k)) false y.files ok (f ∙ g) refl)
      by_lookup ok f (missing all g) =
          let x =
            add_entry-Filled persist y.files i d name sector e (ground arith) small refl
              (free_slot persist y.files i (whole_mapped d) e) in
          let files : FileSystem = record y.files {
            sectors = x.after;
            open_inodes = update_open y.files.open_inodes x.inode;
          } in
          added files all
            (subst (λ (r : Option (Bool × FileSystem)). Filled y.files i name sector r) x.returned
              x)
            (add_valid name sector l e none true files ok (f ∙ g) x.returned)

      -- On an open directory of whole entries that is not locked, whose blocks, and that of
      -- one more entry behind them, have sectors of their own already, and whose writing is
      -- not denied, with a sector number of 32 bits: `dir_add` of a name that is not there,
      -- and is not empty or longer than 14 characters, puts it and the sector into an entry
      -- that was free, or a new one, and leaves the others; of a name that is there it adds
      -- nothing; both release the lock. An empty or longer name adds nothing, and leaves the
      -- lock held.
      pub dir_add-Added : Added y dir i name sector (dir_add persist y dir name sector l e)
      dir_add-Added = elim (Bool-cases ((length name == 0) || ltb 14 (length name))) [
        | inl bad ↦ invalid bad (add_invalid name sector l e bad)
        | inr ok ↦
            by_lookup ok refl
              (lookup-Looked persist y.files i (whole_mapped d) name (ground arith) l)
      ]
