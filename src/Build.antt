-- ===== src/Build.antt =====
-- build.rs: the check of src/constants.rs, and the file genesis_hash.txt. The environment and the
-- file system are arguments: the value of OUT_DIR, and whether a write to a path succeeds.
pub mod Laws
use the_block.Prelude.{
  ℕ, List, [], ◌∷◌, ◌++◌, Option, none, some, Bool, true, false, ◌&&◌, Text, Bytes, ltb, ◌==◌,
  if◌then◌else◌,
}
use the_block.Prelude.Strings.{codes}
use the_block.Prelude.Result.{Result, ok, err, ok_or, ◌>>=◌, ◌>>◌}
use the_block.Transaction.{Crypto}
use the_block.Hashlayout.{build_genesis_digest}

-- `std::process::exit(1)`, and the two `expect`s.
pub data Failure : Type 0 where
  non_ascii out_dir_missing write_failed : Failure

-- `str::is_ascii`.
unfoldable pub is_ascii : Bytes → Bool
is_ascii [] = true
is_ascii (b ∷ bytes) = ltb b 128 && is_ascii bytes

-- `Path::join` of a name: with a separator, if the path is not empty and does not end with one.
abbrev join : Text → Text → Text
join [] name = name
join (c ∷ []) name = if c == b'/' then c ∷ name else c ∷ b'/' ∷ name
join (c ∷ d ∷ dir) name = c ∷ join (d ∷ dir) name

abbrev pub dest_of : Text → Text
dest_of out_dir = join out_dir (codes "genesis_hash.txt")

-- `main`: the path and the content of the file.
unfoldable pub main :
    Crypto → Bytes → Option Text → (Text → Text → Bool) → Result Failure (Text × Text)
main crypto constants out_dir writes = do
  if is_ascii constants then ok tt else err non_ascii
  let digest = build_genesis_digest crypto
  dir ← ok_or out_dir out_dir_missing
  let dest = dest_of dir
  if writes dest digest then ok tt else err write_failed
  ok (dest, digest)
