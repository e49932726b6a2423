-- ===== src/FileSystem.antt =====
-- What the services use of package os on files: a parameter of the services, with the documented
-- behaviour that the code relies on. Contents are lists of bytes.
use kube_pfs.Base.{◌≡◌, ◌≢◌, ◌⊎◌, refl, inl, inr, Option, none, All, ◌∷◌, ◌++◌}
use kube_pfs.Text.{Text}
use kube_pfs.Text.Path.{clean, split, slash, dot_dot}

-- An error of package os: `missing` is one that os.IsNotExist accepts; the text is err.Error().
pub data IoError : Type 0 where
  missing : Text → IoError
  other : Text → IoError

abbrev pub error_text : IoError → Text
error_text (missing m) = m
error_text (other m) = m

-- What os.ReadFile answers.
pub data Contents : Type 0 where
  bytes : Text → Contents
  failed : IoError → Contents

abbrev pub Missing : Contents → Type 0
Missing (bytes b) = ⊥
Missing (failed (missing m)) = Unit
Missing (failed (other m)) = ⊥

-- Without a part "..", a path stays below the directory that it is joined to.
abbrev pub StaysBelow : Text → Type 0
StaysBelow x = All (λ part. part ≢ dot_dot) (split x)

-- Different paths that are cleaned and lie below one directory. Other paths that differ, such as
-- "/d/a" and "/d//a", may lead to one file.
abbrev pub AreApart : Text → Text → Type 0
AreApart p q =
    (p ≢ q)
    × ((d x y : Text) × (p ≡ clean (d ++ slash ∷ x))
        × (q ≡ clean (d ++ slash ∷ y))
        × StaysBelow x
        × StaysBelow y)

pub record FileSystem : Type 1 where
  pub Fs : Type 0
  -- os.MkdirAll, os.WriteFile, os.Remove and os.RemoveAll: `none` is a nil error.
  pub mkdir_all : Text → Fs → Option IoError × Fs
  pub write_file : Text → Text → Fs → Option IoError × Fs
  pub remove : Text → Fs → Option IoError × Fs
  pub remove_all : Text → Fs → Option IoError × Fs
  -- os.ReadFile
  pub read_file : Text → Fs → Contents
  -- A written file is read back, and a file apart from it keeps its contents.
  pub read-write_self :
      (p b : Text) (f : Fs)
      → (write_file p b f).0 ≡ none
      → read_file p (write_file p b f).1 ≡ bytes b
  pub read-write_ne :
      (p q b c : Text) (f : Fs)
      → AreApart p q
      → read_file q f ≡ bytes c
      → read_file q (write_file p b f).1 ≡ bytes c
  -- Making directories changes no file.
  pub read-mkdir_all :
      (p q c : Text) (f : Fs) → read_file q f ≡ bytes c → read_file q (mkdir_all p f).1 ≡ bytes c
  -- A removed file is missing, and a file apart from it keeps its contents.
  pub read-remove_self :
      (p : Text) (f : Fs) → (remove p f).0 ≡ none → Missing (read_file p (remove p f).1)
  pub read-remove_ne :
      (p q c : Text) (f : Fs)
      → AreApart p q
      → read_file q f ≡ bytes c
      → read_file q (remove p f).1 ≡ bytes c

pub Contents-cases :
    (c : Contents)
    → ((b : Text) × (c ≡ bytes b))
      ⊎ ((m : Text) × (c ≡ failed (missing m)))
      ⊎ ((m : Text) × (c ≡ failed (other m)))
Contents-cases (bytes b) = inl (b, refl)
Contents-cases (failed (missing m)) = inr (inl (m, refl))
Contents-cases (failed (other m)) = inr (inr (m, refl))
