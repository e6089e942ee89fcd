-- ===== src/Format.antt =====
-- format/format.go: the file formats, their names, and the text codec.
-- A Go `int` that is none of the constants is `other`.
pub mod Text
mod Tests
use ipfs_content.Prelude.{
  ℕ, String, Bool, true, false, not, ◌&&◌, Option, none, some, if◌then◌else◌, ◌==◌, string_eq,
}

pub data Format : Type 0 where
  unknown car zip file rar tar tar_gz tar_bz2 seven_z : Format
  other : ℕ → Format

unfoldable pub is_upload_format : Format → Bool
is_upload_format car = true
is_upload_format _ = false

unfoldable pub is_archive_format : Format → Bool
is_archive_format unknown = false
is_archive_format file = false
is_archive_format car = false
is_archive_format _ = true

unfoldable pub to_string : Format → String
to_string car = "car"
to_string file = "file"
to_string zip = "zip"
to_string rar = "rar"
to_string tar = "tar"
to_string tar_gz = "tar.gz"
to_string tar_bz2 = "tar.bz2"
to_string seven_z = "7z"
to_string _ = "unknown"

unfoldable pub parse_format : String → Format
parse_format s =
    if s == "car"
    then car
    else if s == "file"
    then file
    else if s == "zip"
    then zip
    else if s == "rar"
    then rar
    else if s == "tar"
    then tar
    else if s == "tar.gz"
    then tar_gz
    else if s == "tar.bz2"
    then tar_bz2
    else if s == "7z"
    then seven_z
    else unknown

unfoldable pub marshal_text : Format → String
unfolding to_string
marshal_text f = to_string f

-- The message of the error is `unknown format: <text>`.
pub data TextError : Type 0 where
  unknown_format : String → TextError

fail_unknown : Format → String → Option TextError
fail_unknown unknown text = some (unknown_format text)
fail_unknown _ text = none

-- The receiver after the call, and the error.
unfoldable pub unmarshal_text : String → Format × Option TextError
unfolding parse_format fail_unknown
unmarshal_text text = let f = parse_format text in (f, fail_unknown f text)
