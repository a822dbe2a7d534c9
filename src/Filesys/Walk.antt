-- ===== src/Filesys/Walk.antt =====
-- The loop of `filesys_path_to_dir` of src/filesys/filesys.c walks the components of the path.
use kernel_dev.Prelude.{
  ℕ, zero, suc, ◌+◌, ◌<◌, ◌≡◌, refl, ap, Option, none, some, List, [], ◌∷◌, if◌then◌else◌, ◌>>=◌,
  length, arith,
}
use mathlib.Core.Path.{fun_ext}
use kernel_dev.FileSystem.{Persist}
use kernel_dev.Inode.Data.{Buffer}
use kernel_dev.Directory.{Name, Dir, Session, dir_lookup, dir_close}
use kernel_dev.Filesys.{
  is_directory, walk_ends, walk_fails, descend, next_token, walk_loop, start_walk, strtok_r,
  slashes,
}
use kernel_dev.Filesys.Tokens.{components, Tokenised, no_token, token, strtok_r-Tokenised}

module _ (persist : Persist) where
  -- The walk along a list of components: every component but the last is a directory that is descended
  -- to, and the last is only looked up.
  unfoldable pub walk :
      Session → Dir → Name → List Name → Buffer → Option (Option (Dir × Name) × Session)
  walk y dir name [] e =
      dir_lookup persist y dir name e >>= λ (inode, y1). walk_ends persist y1 dir name inode
  walk y dir name (t ∷ ts) e = dir_lookup persist y dir name e >>= λ (inode, y1).
      let down = descend persist y1 dir inode >>= λ (dir', y2). walk y2 dir' t ts e in
      if is_directory persist y1 inode then down else walk_fails persist y1 dir inode

  -- The walk of a whole path from a directory.
  unfoldable pub walk_path :
      Session → Dir → List Name → Buffer → Option (Option (Dir × Name) × Session)
  walk_path y dir [] e = dir_close persist y dir >>= λ y1. some (none, y1)
  walk_path y dir (t ∷ ts) e = walk y dir t ts e

  last_round :
      (fuel : ℕ) (y : Session) (dir : Dir) (name : Name) (rest : List ℕ) (ts : List Name)
      (e : Buffer)
      → strtok_r rest slashes ≡ none
      → ts ≡ []
      → walk_loop persist (suc fuel) y dir name rest e ≡ walk y dir name ts e
  unfolding walk_loop walk next_token
  last_round fuel y dir name rest ts e f g = rw (f, g) refl

  one_round :
      (fuel : ℕ) (y : Session) (dir : Dir) (name t : Name) (rest rest' : List ℕ)
      (ts all : List Name) (e : Buffer)
      → strtok_r rest slashes ≡ some (t, rest')
      → all ≡ t ∷ ts
      → ((y2 : Session) (dir' : Dir)
          → walk_loop persist fuel y2 dir' t rest' e ≡ walk y2 dir' t ts e)
      → walk_loop persist (suc fuel) y dir name rest e ≡ walk y dir name all e
  unfolding walk_loop walk next_token
  one_round fuel y dir name t rest rest' ts all e f g h =
      let same : (λ (dir' : Dir) (y2 : Session). walk_loop persist fuel y2 dir' t rest' e)
          ≡ (λ (dir' : Dir) (y2 : Session). walk y2 dir' t ts e) =
        fun_ext (λ dir'. fun_ext (λ y2. h y2 dir')) in
      rw (f, g)
        (ap
          (λ (k : Dir → Session → Option (Option (Dir × Name) × Session)).
            dir_lookup persist y dir name e >>= λ (inode, y1).
            let down = descend persist y1 dir inode >>= λ (dir', y2). k dir' y2 in
            if is_directory persist y1 inode then down else walk_fails persist y1 dir inode)
          same)

  by_token :
      (fuel : ℕ) (y : Session) (dir : Dir) (name : Name) (rest : List ℕ) (e : Buffer)
      → length rest < suc fuel
      → ((t : Name) (r : List ℕ)
          → length r < fuel
          → (y2 : Session) (dir' : Dir)
          → walk_loop persist fuel y2 dir' t r e ≡ walk y2 dir' t (components r) e)
      → Tokenised rest (strtok_r rest slashes)
      → walk_loop persist (suc fuel) y dir name rest e ≡ walk y dir name (components rest) e
  by_token fuel y dir name rest e h shown (no_token c f) =
      last_round fuel y dir name rest (components rest) e f c
  by_token fuel y dir name rest e h shown (token t rest' c shorter f) =
      one_round fuel y dir name t rest rest' (components rest') (components rest) e f c
        (shown t rest' (omega arith))

  -- As many rounds as the rest of the path has characters, and one, are enough.
  walk_loop-walk :
      (fuel : ℕ) (y : Session) (dir : Dir) (name : Name) (rest : List ℕ) (e : Buffer)
      → length rest < fuel
      → walk_loop persist fuel y dir name rest e ≡ walk y dir name (components rest) e
  walk_loop-walk zero y dir name rest e h = absurd (omega arith)
  walk_loop-walk (suc fuel) y dir name rest e h =
      by_token fuel y dir name rest e h (λ t r q y2 dir'. walk_loop-walk fuel y2 dir' t r e q)
        (strtok_r-Tokenised rest)

  by_first :
      (y : Session) (dir : Dir) (path : List ℕ) (e : Buffer)
      → Tokenised path (strtok_r path slashes)
      → start_walk persist y dir (strtok_r path slashes) e ≡ walk_path y dir (components path) e
  unfolding start_walk walk_path
  by_first y dir path e (no_token c f) = rw (f, c) refl
  by_first y dir path e (token t rest c shorter f) =
      rw (f, c) (walk_loop-walk (length rest + 1) y dir t rest e (omega arith))

  -- Parsing a path while it is walked, as `filesys_path_to_dir` does it from the directory it starts in,
  -- is the walk along the components of the path; the loop ends.
  pub start_walk-walk_path :
      (y : Session) (dir : Dir) (path : List ℕ) (e : Buffer)
      → start_walk persist y dir (strtok_r path slashes) e ≡ walk_path y dir (components path) e
  start_walk-walk_path y dir path e = by_first y dir path e (strtok_r-Tokenised path)
