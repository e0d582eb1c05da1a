-- ===== src/EasyFs/DirEntry.antt =====
-- easy-fs/src/layout.rs: the entries of a directory.
pub mod Names
pub mod Tests
use t_core.Base.{
  ℕ, ◌+◌, ◌-◌, Option, some, none, List, [], ◌∷◌, ◌++◌, if◌then◌else◌, ◌==◌, leb, ◌>>=◌, ◌>>◌,
  assert, length, replicate,
}

abbrev pub name_length_limit : ℕ
name_length_limit = 27

-- `name` is the array of 28 bytes.
pub record DirEntry : Type 0 where
  pub name : List ℕ
  pub inode_number : ℕ

pub empty : DirEntry
empty = record { name = replicate (name_length_limit + 1) 0; inode_number = 0 }

-- The bytes of a name; `none` is the slice that is out of range when they are too many.
pub new : List ℕ → ℕ → Option DirEntry
new name inode_number = do
  assert (leb (length name) (name_length_limit + 1))
  some (record {
    name = name ++ replicate (name_length_limit + 1 - length name) 0;
    inode_number = inode_number;
  })

until_zero : List ℕ → Option (List ℕ)
until_zero [] = none
until_zero (b ∷ bytes) =
    let rest : Option (List ℕ) = do name ← until_zero bytes; some (b ∷ name)
    in if b == 0 then some [] else rest

-- The bytes before the first zero; `none` is the index past the end when there is no zero.
pub name : DirEntry → Option (List ℕ)
unfolding until_zero
name e = until_zero e.name
