-- ===== src/Localstorage.antt =====
-- internal/adapters/localstorage/localstorage.go: objects as files below a root directory. The
-- file system is the content of its regular files by path; what a system call answers is an input.
-- A file that is open keeps the content it had, so what `Get` opens is a content.
pub mod FilePath
pub mod Names
pub mod Walk
pub mod Confined
pub mod Slash
pub mod Renamed
pub mod Atomic
pub mod Objects
use image_forge.Prelude.{
  ℕ, zero, suc, not, ◌&&◌, ◌||◌, Option, none, some, List, [], ◌∷◌, ◌++◌, Text, codes, text_eq,
  has_prefix, blank, contains, lookup, insert, delete, if◌then◌else◌, length, take,
}
use image_forge.Errors.{invalid_key, not_exist, Error, new, sentinel, wrap, is, Result, ok, err}
use image_forge.Domain.Spec.{quote}
use image_forge.Ports.{Bytes}
use image_forge.Localstorage.FilePath.{dot, dot_dot, is_abs, clean, join_path, dir, abs}

abbrev pub Files : Type 0
Files = List (Text × Bytes)

-- The answers of the context and the system to one call: the temporary name is what CreateTemp
-- picks, and `written` is how much io.Copy has written when it fails.
pub record Answers : Type 0 where
  pub ctx_err : Option Error
  pub mkdir_all : Option Error
  pub create_temp : Result Text
  pub written : ℕ
  pub copy : Option Error
  pub close : Option Error
  pub rename : Option Error
  pub remove : Option Error
  pub open_file : Option Error

-- `New`: the root, absolute.
made_root : Text → Option Error → Result Text → Result Text
made_root dir mkdir (err e) =
    err (wrap (codes "localstorage: resolve root " ++ quote dir ++ codes ": ") e [])
made_root dir none (ok root) = ok root
made_root dir (some e) (ok root) =
    err (wrap (codes "localstorage: create root " ++ quote root ++ codes ": ") e [])

unfoldable pub new_storage : Result Text → Answers → Text → Result Text
unfolding made_root abs
new_storage cwd o dir =
    if blank dir
    then err
        (wrap (codes "localstorage: ") (sentinel invalid_key) (codes ": root directory is empty"))
    else made_root dir o.mkdir_all (abs cwd dir)

escapes : Text → Error
escapes key =
    wrap (codes "localstorage: ") (sentinel invalid_key)
      (codes ": " ++ quote key ++ codes " escapes the storage root")

under_root : Text → Text → Text → Result Text
unfolding escapes
under_root root key path =
    if not (text_eq path root) && not (has_prefix (root ++ b'/' ∷ []) path)
    then err (escapes key)
    else ok path

-- `resolve`
unfoldable pub resolve : Text → Text → Result Text
unfolding escapes under_root clean is_abs join_path
resolve root key =
    if blank key
    then err (wrap (codes "localstorage: ") (sentinel invalid_key) (codes ": key is empty"))
    else if contains (0 ∷ []) key
    then err
        (wrap (codes "localstorage: ") (sentinel invalid_key) (codes ": key contains a null byte"))
    else if is_abs (clean key) || text_eq (clean key) dot || has_prefix dot_dot (clean key)
    then err (escapes key)
    else under_root root key (join_path root (clean key))

-- What a call makes of the file system: the states that others may see during it, in order, the
-- state that it leaves, and its error.
pub record Run : Type 0 where
  pub seen : List Files
  pub left : Files
  pub result : Option Error

abbrev stopped : Files → Error → Run
stopped fs e = record { seen = []; left = fs; result = some e }

put_error : Text → Text → Error → Error
put_error key what e = wrap (codes "localstorage: put " ++ quote key ++ what) e []

-- os.Remove
removed : Option Error → Text → Files → Files
removed none tmp fs = delete tmp fs
removed (some e) tmp fs = fs

-- os.Rename, which takes the place of a file in one step.
moved : Text → Text → Files → Option Bytes → Files
moved tmp path fs none = fs
moved tmp path fs (some content) = insert path content (delete tmp fs)

renamed : Text → Text → Files → Files
unfolding moved
renamed tmp path fs = moved tmp path fs (lookup tmp fs)

-- io.Copy to the temporary file: it holds a longer and longer start of the data.
copying : Text → Bytes → Files → ℕ → List Files
copying tmp content fs zero = insert tmp [] fs ∷ []
copying tmp content fs (suc n) =
    copying tmp content fs n ++ insert tmp (take (suc n) content) fs ∷ []

-- The deferred removal of the temporary file.
cleaned : Option Error → Text → List Files → Files → Option Error → Run
unfolding removed
cleaned remove tmp seen fs result = record {
  seen = seen;
  left = removed remove tmp fs;
  result = result;
}

put_renamed : Answers → Text → Text → Text → List Files → Files → Option Error → Run
unfolding renamed cleaned put_error
put_renamed o key path tmp seen fs (some e) =
    cleaned o.remove tmp seen fs (some (put_error key (codes ": rename: ") e))
put_renamed o key path tmp seen fs none =
    let fs' = renamed tmp path fs in cleaned o.remove tmp (seen ++ fs' ∷ []) fs' none

put_closed : Answers → Text → Text → Text → List Files → Files → Option Error → Run
unfolding put_renamed cleaned put_error
put_closed o key path tmp seen fs (some e) =
    cleaned o.remove tmp seen fs (some (put_error key (codes ": close: ") e))
put_closed o key path tmp seen fs none = put_renamed o key path tmp seen fs o.rename

pub put_copied : Answers → Text → Text → Bytes → Text → Files → Option Error → Run
unfolding put_closed copying cleaned put_error
put_copied o key path content tmp fs (some e) =
    cleaned o.remove tmp (copying tmp content fs o.written) (insert tmp (take o.written content) fs)
      (some (put_error key (codes ": write: ") e))
put_copied o key path content tmp fs none =
    put_closed o key path tmp (copying tmp content fs (length content)) (insert tmp content fs)
      o.close

put_created : Answers → Text → Text → Bytes → Files → Result Text → Run
unfolding put_copied put_error
put_created o key path content fs (err e) =
    stopped fs (put_error key (codes ": create temp file: ") e)
put_created o key path content fs (ok tmp) = put_copied o key path content tmp fs o.copy

put_below : Answers → Text → Text → Bytes → Files → Option Error → Run
unfolding put_created put_error
put_below o key path content fs (some e) =
    stopped fs (put_error key (codes ": create directory: ") e)
put_below o key path content fs none = put_created o key path content fs o.create_temp

put_resolved : Answers → Text → Bytes → Files → Result Text → Run
unfolding put_below
put_resolved o key content fs (err e) = stopped fs e
put_resolved o key content fs (ok path) = put_below o key path content fs o.mkdir_all

put_data : Text → Answers → Text → Option Bytes → Files → Run
unfolding put_resolved
put_data root o key none fs =
    stopped fs (new (codes "localstorage: put " ++ quote key ++ codes ": no data"))
put_data root o key (some content) fs = put_resolved o key content fs (resolve root key)

put_unless : Option Error → Text → Answers → Text → Option Bytes → Files → Run
unfolding put_data
put_unless (some e) root o key content fs = stopped fs e
put_unless none root o key content fs = put_data root o key content fs

-- `Storage.Put`; no data is a nil reader.
unfoldable pub put : Text → Answers → Text → Option Bytes → Files → Run
unfolding put_unless
put root o key content fs = put_unless o.ctx_err root o key content fs

-- os.Open
opened : Option Error → Option Bytes → Result Bytes
opened (some e) content = err e
opened none none = err (sentinel not_exist)
opened none (some content) = ok content

got_file : Text → Result Bytes → Result Bytes
got_file key (ok content) = ok content
got_file key (err e) = err (
    wrap (codes "localstorage: get " ++ quote key ++ codes ": ")
      (if is e not_exist then sentinel not_exist else e) [])

got : Option Error → Text → Files → Result Text → Result Bytes
unfolding opened got_file
got open_error key fs (err e) = err e
got open_error key fs (ok path) = got_file key (opened open_error (lookup path fs))

got_unless : Option Error → Text → Answers → Text → Files → Result Bytes
unfolding got
got_unless (some e) root o key fs = err e
got_unless none root o key fs = got o.open_file key fs (resolve root key)

-- `Storage.Get`
unfoldable pub get : Text → Answers → Text → Files → Result Bytes
unfolding got_unless
get root o key fs = got_unless o.ctx_err root o key fs
