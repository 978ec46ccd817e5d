-- ===== src/FileSink/Folders.antt =====
-- src/sinks/file-sink.cpp: the folder of the files, with all the folders that it stands in.
use octo_logger_cpp.Prelude.{
  ◌≡◌, ◌<◌, ℕ, zero, suc, ◌+◌, refl, subst, ◌⊎◌, inl, inr, Bool, true, false, Option, none, some,
  arith, length,
}
use octo_logger_cpp.Prelude.Text.{Text}
use octo_logger_cpp.FileSink.{FileSystem}

module _ (F : FileSystem) where
  abbrev pub make_folder : Text → Option (Bool × F.State) → Option (Bool × F.State)
  make_folder dir none = none
  make_folder dir (some (ok, st)) = some (F.mkdir dir st)

  abbrev pub create_unless :
      Text → Bool → F.State → Option (Bool × F.State) → Option (Bool × F.State)
  create_unless dir true st parent = some (true, st)
  create_unless dir false st parent = make_folder dir parent

  -- recursive_folder_creation(dir, mode) of a dir that is not null; `true` is its result 0. stat answers
  -- whether the path exists, and the fuel is the depth of the recursion: `none` if it runs out.
  unfoldable pub recursive_folder_creation : ℕ → Text → F.State → Option (Bool × F.State)
  recursive_folder_creation zero dir st = none
  recursive_folder_creation (suc fuel) dir st =
      let parent = recursive_folder_creation fuel (F.dirname dir) st in
      create_unless dir (F.exists dir st) st parent

  -- What dirname does: from a path that does not exist it comes to one that does, such as "." and "/",
  -- or to a shorter one.
  abbrev pub Shortens : Type 0
  Shortens =
      (dir : Text) (st : F.State)
      → F.exists dir st ≡ false
      → (F.exists (F.dirname dir) st ≡ true) ⊎ (length (F.dirname dir) < length dir)

  -- After the call the folder is there; with no result it is not.
  abbrev pub Exists : Text → Option (Bool × F.State) → Type 0
  Exists dir none = ⊥
  Exists dir (some (ok, st)) = F.exists dir st ≡ true

  -- After mkdir in a folder that exists, the new one exists, too: it can be made, or was there.
  abbrev pub CanMake : Type 0
  CanMake =
      (dir : Text) (st : F.State)
      → F.exists (F.dirname dir) st ≡ true
      → Exists dir (some (F.mkdir dir st))

  Exists-make_folder :
      (dir : Text) (parent : Option (Bool × F.State))
      → CanMake
      → Exists (F.dirname dir) parent
      → Exists dir (make_folder dir parent)
  Exists-make_folder dir none can h = absurd h
  Exists-make_folder dir (some (ok, st)) can h = can dir st h

  Exists-create_unless :
      (dir : Text) (e : Bool) (st : F.State) (parent : Option (Bool × F.State))
      → CanMake
      → F.exists dir st ≡ e
      → (F.exists dir st ≡ false → Exists (F.dirname dir) parent)
      → Exists dir (create_unless dir e st parent)
  Exists-create_unless dir true st parent can q h = q
  Exists-create_unless dir false st parent can q h = Exists-make_folder dir parent can (h q)

  Exists-recursive :
      (fuel : ℕ) (dir : Text) (st : F.State)
      → Shortens
      → CanMake
      → (F.exists dir st ≡ true) ⊎ (length dir < fuel)
      → Exists dir (recursive_folder_creation (suc fuel) dir st)
  unfolding recursive_folder_creation
  Exists-recursive zero dir st short can (inl h) =
      Exists-create_unless dir (F.exists dir st) st none can refl (λ q. cc)
  Exists-recursive zero dir st short can (inr h) = elim h [ ]
  Exists-recursive (suc fuel) dir st short can h =
      Exists-create_unless dir (F.exists dir st) st _ can refl
        (λ q. Exists-recursive fuel (F.dirname dir) st short can (ground (arith, short dir st q)))

  -- If dirname comes to shorter paths and folders can be made, the recursion ends, no deeper than the
  -- path is long, and the folder exists after it.
  pub recursive_folder_creation-Exists :
      (dir : Text) (st : F.State)
      → Shortens
      → CanMake
      → Exists dir (recursive_folder_creation (length dir + 2) dir st)
  recursive_folder_creation-Exists dir st short can =
      subst (λ fuel. Exists dir (recursive_folder_creation fuel dir st))
        {x = suc (suc (length dir))} (omega arith)
        (Exists-recursive (suc (length dir)) dir st short can (inr (omega arith)))
