-- ===== src/Read/Located.antt =====
-- src/error.rs: an error that is given the place of its record and the path of its file.
use oxihipo.Prelude.{
  ℕ, ◌+◌, ◌%◌, ◌^◌, List, HipoError, ltb, ◌==◌, if◌then◌else◌, Result, ok, err, panic,
}
use oxihipo.Wire.Constants.Words.{record_header_size}

unfoldable pub with_path : List ℕ → HipoError → HipoError
with_path path e = HipoError.path path e

-- An offset of 0 stands for "not known", and one inside the header is counted from the record.
unfoldable pub at_offset : ℕ → HipoError → HipoError
at_offset record_offset (HipoError.corrupt_record offset reason) =
    if offset == 0
    then HipoError.corrupt_record record_offset reason
    else HipoError.at_offset record_offset (HipoError.corrupt_record offset reason)
at_offset record_offset (HipoError.bad_magic offset found expected) =
    if ltb offset record_header_size
    then HipoError.bad_magic ((record_offset + offset) % 2 ^ 64) found expected
    else HipoError.at_offset record_offset (HipoError.bad_magic offset found expected)
at_offset record_offset (HipoError.at_offset offset source) = HipoError.at_offset offset source
at_offset record_offset (HipoError.path path source) = HipoError.path path source
at_offset record_offset other = HipoError.at_offset record_offset other

-- `map_err` of the two.
unfoldable pub locate {ℓ} : {A : Type ℓ} → List ℕ → ℕ → Result A → Result A
locate path record_offset (ok a) = ok a
locate path record_offset (err e) = err (with_path path (at_offset record_offset e))
locate path record_offset panic = panic
